-- ===== src/Tests/Compiler.antt =====
-- The registers of a function that is compiled.
use sqnim.FuncState.Outers.{Level, get_outer_variable, get_outer_variable_bound}
use sqnim.FuncState.Registers.{
  MarksNamed, marks, set_stack_size_lem, mark_local_as_outer_lem, alloc_stack_pos_late,
}
use sqnim.FuncState.{
  Local, temporary, outer_mark, FuncState, ok, alloc_stack_pos, register, set_stack_size,
  count_outers, mark_local_as_outer, max_func_stacksize,
}
use sqnim.Prelude.{
  ◌<◌, ℕ, ◌≡◌, refl, List, [], ◌∷◌, some, length, arith, ◌+◌, ◌≤◌, replicate, length-replicate,
}

abbrev x : List ℕ
x = 120 ∷ []

abbrev y : List ℕ
y = 121 ∷ []

abbrev outer_x : Local
outer_x = record { name = some x; start_op = 0; end_op = 0; place = 0 }

abbrev outer_y : Local
outer_y = record { name = some y; start_op = 0; end_op = 0; place = 1 }

abbrev inner_x : Local
inner_x = record { name = some x; start_op = 1; end_op = outer_mark; place = 1 }

abbrev sample : FuncState
sample = record {
  vlocals = inner_x ∷ outer_x ∷ [];
  targets = [];
  stacksize = 2;
  outers = 1;
  instructions = [];
  localvarinfos = [];
  parameters = [];
}

sample-MarksNamed : MarksNamed sample.vlocals
sample-MarksNamed = (ground arith, (ground arith, tt))

abbrev pushed : FuncState
pushed = record sample { vlocals = temporary ∷ sample.vlocals; targets = 2 ∷ []; stacksize = 3 }

set_stack_size_lem_example :
    ((set_stack_size 1 sample).vlocals ≡ outer_x ∷ [])
    × ((set_stack_size 1 sample).outers + count_outers 1 sample.vlocals ≡ 1)
set_stack_size_lem_example =
    set_stack_size_lem 1 sample sample-MarksNamed (unfold count_outers in omega arith)

mark_local_as_outer_lem_example :
    MarksNamed (mark_local_as_outer 0 sample).vlocals
    × (marks (mark_local_as_outer 0 sample).vlocals ≤ (mark_local_as_outer 0 sample).outers)
mark_local_as_outer_lem_example =
    mark_local_as_outer_lem 0 sample outer_x (unfold register in refl) (ground arith)
      sample-MarksNamed (unfold count_outers in omega arith)

abbrev full : FuncState
full = record sample { vlocals = replicate 255 temporary; stacksize = 255 }

alloc_stack_pos_late_example : (t : FuncState) × (alloc_stack_pos full ≡ ok (t, max_func_stacksize))
alloc_stack_pos_late_example =
    alloc_stack_pos_late full (length-replicate 255 temporary) (omega arith)

abbrev around : Level
around = record { state = sample; outer_values = [] }

get_outer_variable_bound_example : 0 < length (get_outer_variable x [] (around ∷ [])).outer_values
get_outer_variable_bound_example =
    get_outer_variable_bound x [] (around ∷ []) 0 (unfold get_outer_variable in refl)
