-- ===== src/FuncState/Machine.antt =====
-- The instructions that the optimiser of `AddInstruction` merges, as `SQVM::Execute` runs them
-- (sqvm.cpp): each reads and writes the registers of the frame, and the heap through what the
-- machine calls.
use sqnim.FuncState.Code.{
  Instr, code, is_op, op_load, op_loadint, op_loadfloat, op_dload, op_getk, op_move, op_get, op_eq,
  op_ne, op_add, op_sub, op_mul, op_div, op_mod, op_bitw, op_loadnulls, op_loadbool, op_dmove,
  op_jcmp, op_jz, op_appendarray, op_cmp,
}
use sqnim.Prelude.Int.{ℤ, pos, pos_part, eqb_ℤ}
use sqnim.Prelude.{ℕ, zero, suc, ◌+◌, ◌||◌, not, Bool, Option, none, some, ◌==◌, if◌then◌else◌}
use sqnim.Table.{update}

-- the registers, the heap, and how far the last instruction jumps
pub record Frame (V H : Type 0) : Type 0 where
  pub regs : ℕ → V
  pub heap : H
  pub jump : ℤ

-- What the instructions call, over values `V` and a heap `H`; `none` is an exception. `get_slot` takes
-- the register of the object, `arith` the instruction's operator, `compare` the number of the test.
-- A `modulo` with no value has failed, which is not an exception: `_OP_MOD` drops the result of
-- `ARITH_OP`. `other` stands for the instructions that the optimiser does not merge.
pub record Calls (V H : Type 0) : Type 0 where
  pub get_slot : ℕ → V → V → H → Option (V × H)
  pub arith : ℕ → ℕ → V → V → H → Option (V × H)
  pub modulo : V → V → H → Option V × H
  pub compare : ℕ → V → V → H → Option (V × H)
  pub equal_values : V → V → Bool
  pub falsy : V → Bool
  pub append_value : V → V → H → H
  pub literal : ℤ → V
  pub of_int : ℤ → V
  pub of_float : ℤ → V
  pub of_bool : Bool → V
  pub raw_bool : ℤ → V
  pub null : V
  pub other : Instr → Frame V H → Option (Frame V H)

module _ {V H : Type 0} (c : Calls V H) where
  abbrev pub target : ℕ → Option (V × H) → Frame V H → Option (Frame V H)
  target a o m = elim o [
    | none ↦ none
    | some (v, h) ↦ some (record { regs = update a v m.regs; heap = h; jump = pos 0 })
  ]

  -- `STK` of a signed argument, which names a register
  abbrev pub stack : Frame V H → ℤ → V
  stack m a = m.regs (pos_part a)

  -- COND_LITERAL
  abbrev cond_literal : Instr → Frame V H → V
  cond_literal i m = if i.arg3 == 0 then stack m i.arg1 else c.literal i.arg1

  unfoldable pub load_nulls : ℕ → ℕ → (ℕ → V) → ℕ → V
  load_nulls a zero regs = regs
  load_nulls a (suc n) regs = update (a + n) c.null (load_nulls a n regs)

  -- the value that `_OP_APPENDARRAY` appends
  abbrev appended : Instr → Frame V H → V
  appended i m =
      if i.arg2 == 0
      then stack m i.arg1
      else if i.arg2 == 1
      then c.literal i.arg1
      else if i.arg2 == 2
      then c.of_int i.arg1
      else if i.arg2 == 3
      then c.of_float i.arg1
      else c.raw_bool i.arg1

  abbrev is_arith : Instr → Bool
  is_arith i =
      is_op op_add i || is_op op_sub i || is_op op_mul i || is_op op_div i || is_op op_bitw i

  -- an instruction whose effect is to compute the value of its target; `none` is another one
  unfoldable pub computes : Instr → Frame V H → Option (Option (V × H))
  computes i m =
      if is_op op_load i
      then some (some (c.literal i.arg1, m.heap))
      else if is_op op_loadint i
      then some (some (c.of_int i.arg1, m.heap))
      else if is_op op_loadfloat i
      then some (some (c.of_float i.arg1, m.heap))
      else if is_op op_loadbool i
      then some (some (c.of_bool (not (eqb_ℤ i.arg1 (pos 0))), m.heap))
      else if is_op op_move i
      then some (some (stack m i.arg1, m.heap))
      else if is_op op_get i
      then some (c.get_slot (pos_part i.arg1) (stack m i.arg1) (m.regs i.arg2) m.heap)
      else if is_op op_getk i
      then some (c.get_slot i.arg2 (m.regs i.arg2) (c.literal i.arg1) m.heap)
      else if is_op op_eq i
      then some (some (c.of_bool (c.equal_values (m.regs i.arg2) (cond_literal i m)), m.heap))
      else if is_op op_ne i
      then some (some (c.of_bool (not (c.equal_values (m.regs i.arg2) (cond_literal i m))), m.heap))
      else if is_arith i
      then some (c.arith (code i.op) i.arg3 (m.regs i.arg2) (stack m i.arg1) m.heap)
      else if is_op op_cmp i
      then some (c.compare i.arg3 (m.regs i.arg2) (stack m i.arg1) m.heap)
      else none

  abbrev pub branch : ℤ → V → H → Frame V H → Frame V H
  branch offset v h m = record {
    regs = m.regs;
    heap = h;
    jump = if c.falsy v then offset else pos 0;
  }

  abbrev silent : (ℕ → V) → H → Option (Frame V H)
  silent r h = some (record { regs = r; heap = h; jump = pos 0 })

  -- `_OP_MOD`: its target stays as it was if the modulo fails
  unfoldable pub exec_mod : Instr → Frame V H → Option (Frame V H)
  exec_mod i m =
      let (o, h) = c.modulo (m.regs i.arg2) (stack m i.arg1) m.heap in
      silent (elim o [ none ↦ m.regs | some v ↦ update i.arg0 v m.regs ]) h

  unfoldable pub exec_other : Instr → Frame V H → Option (Frame V H)
  unfolding load_nulls exec_mod
  exec_other i m =
      if is_op op_dload i
      then silent (update i.arg2 (c.literal (pos i.arg3)) (update i.arg0 (c.literal i.arg1) m.regs))
          m.heap
      else if is_op op_dmove i
      then silent
          (update i.arg2 (update i.arg0 (stack m i.arg1) m.regs i.arg3)
            (update i.arg0 (stack m i.arg1) m.regs))
          m.heap
      else if is_op op_loadnulls i
      then silent (load_nulls i.arg0 (pos_part i.arg1) m.regs) m.heap
      else if is_op op_jz i
      then some (branch i.arg1 (m.regs i.arg0) m.heap m)
      else if is_op op_jcmp i
      then elim (c.compare i.arg3 (m.regs i.arg2) (m.regs i.arg0) m.heap) [
        | none ↦ none
        | some (v, h) ↦ some (branch i.arg1 v h m)
      ]
      else if is_op op_appendarray i
      then silent m.regs (c.append_value (m.regs i.arg0) (appended i m) m.heap)
      else if is_op op_mod i
      then exec_mod i m
      else c.other i m

  unfoldable pub exec : Instr → Frame V H → Option (Frame V H)
  unfolding computes exec_other
  exec i m = elim (computes i m) [ some o ↦ target i.arg0 o m | none ↦ exec_other i m ]

  -- one instruction after another
  abbrev pub exec_two : Instr → Instr → Frame V H → Option (Frame V H)
  exec_two p i m = elim (exec p m) [ none ↦ none | some m' ↦ exec i m' ]
