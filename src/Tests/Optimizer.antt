-- ===== src/Tests/Optimizer.antt =====
-- The emitted code.
use sqnim.FuncState.Code.{Instr, op_load, op_get, op_mod, op_move}
use sqnim.FuncState.Machine.{Calls, Frame, exec, computes, exec_other, exec_mod}
use sqnim.FuncState.Moves.{Dropped}
use sqnim.FuncState.Peephole.{Emitter}
use sqnim.FuncState.{FuncState}
use sqnim.Prelude.Int.{pos, negsuc, pos_part}
use sqnim.Prelude.{◌+◌, ◌%◌, ℕ, none, refl, [], ◌∷◌, ◌++◌, some, arith, true, if◌then◌else◌, ◌==◌}

-- values and heap are numbers; the heap counts the reads
abbrev calls : Calls ℕ ℕ
calls = record {
  get_slot = λ r o k h. some (o + k, h + 1);
  arith = λ op way a b h. some (a + b, h);
  modulo = λ a b h. if b == 0 then (none, h) else (some (a % b), h);
  compare = λ op a b h. some (a, h);
  equal_values = λ a b. a == b;
  falsy = λ v. v == 0;
  append_value = λ a v h. h + v;
  literal = λ k. pos_part k + 100;
  of_int = pos_part;
  of_float = pos_part;
  of_bool = λ b. if b then 1 else 0;
  raw_bool = pos_part;
  null = 0;
  other = λ i m. none;
}

abbrev machine : Frame ℕ ℕ
machine = record { regs = λ j. j; heap = 0; jump = pos 0 }

-- the key of a field is loaded into register 5, and read from the object in register 2
abbrev loaded : Instr
loaded = record { op = op_load; arg0 = 5; arg1 = pos 3; arg2 = 0; arg3 = 0 }

abbrev read : Instr
read = record { op = op_get; arg0 = 1; arg1 = pos 2; arg2 = 5; arg3 = 0 }

abbrev func : FuncState
func = record {
  vlocals = [];
  targets = [];
  stacksize = 6;
  outers = 0;
  instructions = [] ++ loaded ∷ [];
  localvarinfos = [];
  parameters = [];
}

abbrev emitter : Emitter
emitter = record {
  func = func;
  optimization = true;
  has_parent = true;
  return_exp = negsuc 0;
  lineinfos = [];
  last_line = pos 1;
}

-- a modulo by zero, and the move of its target to a variable
abbrev divided : Instr
divided = record { op = op_mod; arg0 = 5; arg1 = pos 0; arg2 = 2; arg3 = 0 }

abbrev copied : Instr
copied = record { op = op_move; arg0 = 1; arg1 = pos 5; arg2 = 0; arg3 = 0 }

modulo_by_zero : Dropped calls divided copied (record divided { arg0 = 1 }) machine
unfolding exec computes exec_other exec_mod
modulo_by_zero = (refl, 0, refl, refl, refl)
