-- ===== src/FuncState/Peephole.antt =====
-- `AddInstruction` with its peephole optimiser, `DiscardTarget` and `AddLineInfos`
-- (sqfuncstate.cpp).
use sqnim.FuncState.Code.{
  Instr, is_op, op_line, op_load, op_loadint, op_loadfloat, op_dload, op_tailcall, op_call,
  op_prepcall, op_prepcallk, op_getk, op_move, op_newslot, op_set, op_get, op_eq, op_ne, op_add,
  op_sub, op_mul, op_div, op_mod, op_bitw, op_return, op_loadnulls, op_loadbool, op_dmove, op_jcmp,
  op_jz, op_setouter, op_appendarray, op_cmp, op_close,
}
use sqnim.FuncState.Patch.{to_byte, to_int32}
use sqnim.FuncState.{FuncState, pop_target, is_local, max_func_stacksize}
use sqnim.Prelude.Int.{ℤ, pos, ltb_ℤ, eqb_ℤ, ◌+ℤ◌}
use sqnim.Prelude.{
  ℕ, ◌-◌, ◌&&◌, ◌||◌, not, Bool, true, false, Option, none, some, List, [], ◌∷◌, ◌++◌, length,
  get_elem?, set, take, ◌==◌, if◌then◌else◌,
}

-- `SQLineInfo`
pub record LineInfo : Type 0 where
  pub line : ℤ
  pub op : ℕ

-- what emitting an instruction reads and changes, besides the function's state
pub record Emitter : Type 0 where
  pub func : FuncState
  pub optimization : Bool
  pub has_parent : Bool
  pub return_exp : ℤ
  pub lineinfos : List LineInfo
  pub last_line : ℤ

-- What becomes of the previous instruction and the new one: one instruction, and whether to go on
-- optimising; two; or, for a second line mark, the new one alone.
pub data Merged : Type 0 where
  into : Instr → Bool → Merged
  after : Instr → Instr → Merged
  instead : Instr → Merged

-- `AAT_LITERAL` and the others; `none` is the -1 of the source
abbrev pub append_type : Instr → Option ℕ
append_type p =
    if is_op op_load p
    then some 1
    else if is_op op_loadint p
    then some 2
    else if is_op op_loadbool p
    then some 4
    else if is_op op_loadfloat p
    then some 3
    else none

-- the instructions whose target a move may change
abbrev pub is_value : Instr → Bool
is_value p =
    is_op op_get p
    || is_op op_add p
    || is_op op_sub p
    || is_op op_mul p
    || is_op op_div p
    || is_op op_mod p
    || is_op op_bitw p
    || is_op op_loadint p
    || is_op op_loadfloat p
    || is_op op_loadbool p
    || is_op op_load p

-- the previous instruction loads the new one's second operand into a temporary
abbrev pub loads : FuncState → Instr → ℤ → Bool
loads s p a = eqb_ℤ (pos p.arg0) a && not (is_local p.arg0 s)

module _ (e : Emitter) (p i : Instr) where
  unfoldable pub merge_return : Merged
  merge_return =
      if e.has_parent
        && not (i.arg0 == max_func_stacksize)
        && is_op op_call p
        && ltb_ℤ e.return_exp (pos (length e.func.instructions - 1))
      then after (record p { op = op_tailcall }) i
      else if is_op op_close p
      then into i true
      else after p i

  unfoldable pub merge_append : Merged
  merge_append = elim (append_type p) [
    | none ↦ after p i
    | some aat ↦
        if loads e.func p i.arg1
        then into
            (record p { op = op_appendarray; arg0 = i.arg0; arg2 = aat; arg3 = max_func_stacksize })
            true
        else after p i
  ]

  unfoldable pub merge_move : Merged
  unfolding to_byte
  merge_move =
      if is_value p && eqb_ℤ (pos p.arg0) i.arg1
      then into (record p { arg0 = i.arg0 }) false
      else if is_op op_move p
      then into (record p { op = op_dmove; arg2 = i.arg0; arg3 = to_byte i.arg1 }) true
      else after p i

  -- the cases of the optimiser that make one instruction of two that compute
  unfoldable pub merge_compute : Merged
  unfolding merge_append merge_move to_byte
  merge_compute =
      if is_op op_jz i && is_op op_cmp p && ltb_ℤ p.arg1 (pos 0xff)
      then into (record p { op = op_jcmp; arg0 = to_byte p.arg1; arg1 = i.arg1 }) true
      else if is_op op_get i && is_op op_load p && p.arg0 == i.arg2 && not (is_local p.arg0 e.func)
      then into (record p { op = op_getk; arg0 = i.arg0; arg2 = to_byte i.arg1 }) true
      else if is_op op_appendarray i
      then merge_append
      else if is_op op_move i
      then merge_move
      else if is_op op_load i && is_op op_load p && ltb_ℤ i.arg1 (pos 256)
      then into (record p { op = op_dload; arg2 = i.arg0; arg3 = to_byte i.arg1 }) true
      else if (is_op op_eq i || is_op op_ne i) && is_op op_load p && loads e.func p i.arg1
      then into (record p { op = i.op; arg0 = i.arg0; arg2 = i.arg2; arg3 = max_func_stacksize })
          true
      else if is_op op_loadnulls i
          && is_op op_loadnulls p
          && eqb_ℤ (pos p.arg0 +ℤ p.arg1) (pos i.arg0)
      then into (record p { arg1 = p.arg1 +ℤ pos 1 }) true
      else after p i

  -- the `switch` of `AddInstruction`
  unfoldable pub merge : Merged
  unfolding merge_return merge_compute
  merge =
      if (is_op op_set i || is_op op_newslot i) && i.arg0 == i.arg3
      then after p (record i { arg0 = 0xff })
      else if is_op op_setouter i && i.arg0 == i.arg2
      then after p (record i { arg0 = 0xff })
      else if is_op op_return i
      then merge_return
      else if is_op op_prepcall i && is_op op_load p && loads e.func p i.arg1
      then into (record p { op = op_prepcallk; arg0 = i.arg0; arg2 = i.arg2; arg3 = i.arg3 }) true
      else if is_op op_line i && is_op op_line p
      then instead i
      else merge_compute

abbrev with_code : List Instr → Emitter → Emitter
with_code c e = record e { func = record e.func { instructions = c } }

unfoldable pub add_instruction : Instr → Emitter → Emitter
unfolding merge
add_instruction i e =
    let c : List Instr = e.func.instructions in
    let last : ℕ = length c - 1 in
    let pushed : Emitter = record (with_code (c ++ i ∷ []) e) { optimization = true } in
    if e.optimization
    then elim (get_elem? c last) [
      | none ↦ pushed
      | some p ↦ elim (merge e p i) [
        | into p' go_on ↦ record (with_code (set c last p') e) { optimization = go_on }
        | after p' i' ↦ record (with_code (set c last p' ++ i' ∷ []) e) { optimization = true }
        | instead i' ↦ record (with_code (take last c ++ i' ∷ []) e) {
          optimization = true;
          lineinfos = take (length e.lineinfos - 1) e.lineinfos;
        }
      ]
    ]
    else pushed

-- `DiscardTarget`: the instruction before need not write the target that nobody reads
unfoldable pub discard_target : Emitter → Option Emitter
unfolding pop_target
discard_target e = elim (pop_target e.func) [
  | none ↦ none
  | some (f, discarded) ↦
      let c : List Instr = f.instructions in
      let last : ℕ = length c - 1 in
      let popped : Emitter = record e { func = f } in
      some (
        if e.optimization
        then elim (get_elem? c last) [
          | none ↦ popped
          | some p ↦
              if (is_op op_set p || is_op op_newslot p || is_op op_setouter p || is_op op_call p)
                && p.arg0 == discarded
              then with_code (set c last (record p { arg0 = 0xff })) popped
              else popped
        ]
        else popped)
]

-- `AddLineInfos` for a new line, or one that is forced
unfoldable pub mark_line : ℤ → Bool → Emitter → Emitter
unfolding add_instruction to_int32
mark_line line lineop e =
    let info : LineInfo = record { line = line; op = length e.func.instructions } in
    let mark : Instr = record {
      op = op_line;
      arg0 = 0;
      arg1 = to_int32 line;
      arg2 = 0;
      arg3 = 0;
    } in
    let marked : Emitter = if lineop then add_instruction mark e else e in
    record marked {
      lineinfos =
          if eqb_ℤ marked.last_line line then marked.lineinfos else marked.lineinfos ++ info ∷ [];
      last_line = line;
    }

unfoldable pub add_line_infos : ℤ → Bool → Bool → Emitter → Emitter
unfolding mark_line
add_line_infos line lineop force e =
    if not (eqb_ℤ e.last_line line) || force then mark_line line lineop e else e
