-- ===== src/Tests/Closures.antt =====
-- Closures that are saved and loaded, and lines of instructions.
use sqnim.FuncState.Peephole.{LineInfo}
use sqnim.Prelude.Int.{pos, negsuc}
use sqnim.Prelude.{
  ℕ, ◌+◌, ◌*◌, ◌-◌, ◌≤◌, ◌<◌, ◌≡◌, ◌⊎◌, refl, true, false, none, some, List, [], ◌∷◌, ◌++◌, length,
  take, ltb, if◌then◌else◌, arith,
}
use sqnim.Proto.Fields.{PartsFit}
use sqnim.Stream.{patterns}
use sqnim.Proto.Closure.{IsSavable, save_closure-load_closure}
use sqnim.Proto.Lines.{get_line, get_line_lem}
use sqnim.Proto.Load.{load_closure}
use sqnim.Proto.Save.{Paddings, count_protos, save_closure}
use sqnim.Proto.Writing.{FloatBytes}
use sqnim.Proto.{ProtoParts, FuncProto, proto, no_proto, next_proto}
use sqnim.Value.{null_value, integer, string, boolean, float}

-- floats that are all alike, of four bytes
abbrev one_float : FloatBytes (Unit {0})
one_float = record { float_size = 4; float_to = λ f. 1 ∷ 2 ∷ 3 ∷ 4 ∷ []; float_of = λ l. tt }

-- each captured variable has other bytes behind its type
abbrev uninitialized : Paddings
uninitialized path i = length path ∷ i ∷ 7 ∷ 7 ∷ []

abbrev one_constant : ProtoParts (Unit {0})
one_constant = record {
  source_name = string (b'f' ∷ []);
  proto_name = null_value;
  literals = integer (pos 5) ∷ string (b'a' ∷ b'b' ∷ []) ∷ float tt ∷ [];
  proto_parameters = string (b't' ∷ []) ∷ [];
  outer_values =
      record { outer_kind = 1; outer_src = string (b'x' ∷ []); outer_name = boolean true }
      ∷ record { outer_kind = 0; outer_src = null_value; outer_name = integer (pos 2) }
      ∷ [];
  local_infos =
      record { local_name = string (b'v' ∷ []); local_pos = 1; local_start = 0; local_end = 2 }
      ∷ [];
  line_infos = record { line_number = pos 1; line_op = pos 0 } ∷ [];
  default_params = negsuc 0 ∷ [];
  proto_code =
      record { code_arg1 = negsuc 1; code_op = 3; code_arg0 = 255; code_arg2 = 0; code_arg3 = 7 }
      ∷ [];
  stack_size = pos 3;
  is_generator = false;
  var_params = pos 0;
}

-- a function inside a function
abbrev nested : FuncProto (Unit {0})
nested = proto one_constant (next_proto (proto one_constant no_proto) no_proto)

one_constant-PartsFit : PartsFit one_constant
one_constant-PartsFit = record {
  source = omega arith;
  name = tt;
  literals = (omega arith, (omega arith, (tt, tt)));
  parameters = (omega arith, tt);
  outers = ((omega arith, omega arith, tt), ((omega arith, tt, omega arith), tt));
  locals = ((omega arith, omega arith, omega arith, omega arith), tt);
  lines = ((omega arith, omega arith), tt);
  defaults = (omega arith, tt);
  codes = ((omega arith, omega arith, omega arith, omega arith, omega arith), tt);
  stack_fits = omega arith;
  var = omega arith;
  n_literals = omega arith;
  n_parameters = omega arith;
  n_outers = omega arith;
  n_locals = omega arith;
  n_lines = omega arith;
  n_defaults = omega arith;
  n_code = omega arith;
}

nested-IsSavable : IsSavable nested
unfolding count_protos
nested-IsSavable =
    (one_constant-PartsFit, omega arith, ((one_constant-PartsFit, omega arith, tt), tt))

small_float : 4 < patterns 4
small_float = omega arith

save_closure-load_closure_example :
    (bytes : List ℕ) × ((room : ℕ)
      → save_closure one_float uninitialized nested room
        ≡ (if ltb room (length bytes) then none else some (bytes, room - length bytes)))
    × ((rest : List ℕ) → load_closure one_float 2 (bytes ++ rest) ≡ some (nested, rest))
    × ((n : ℕ) → n < length bytes → load_closure one_float 2 (take n bytes) ≡ none)
save_closure-load_closure_example =
    save_closure-load_closure one_float uninitialized nested 2 (λ x. refl) (λ x. refl) small_float
      (λ path i. refl) nested-IsSavable (omega arith)

-- two instructions a line
abbrev two_a_line : ℕ → LineInfo
two_a_line i = record { line = pos (i + 1); op = 2 * i }

get_line_lem_example :
    (m : ℕ) × (get_line two_a_line 4 5 ≡ some (two_a_line m).line)
    × (m < 4)
    × ((j : ℕ) → m < j → j < 4 → 5 ≤ (two_a_line j).op)
    × ((m ≡ 0) ⊎ ((two_a_line m).op < 5))
get_line_lem_example = get_line_lem two_a_line 4 5 (omega arith) (λ i j le h. omega (arith, le))
