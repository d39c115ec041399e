-- ===== src/FuncState.antt =====
-- `SQFuncState` (sqfuncstate.h, sqfuncstate.cpp), what the compiler knows of the function that it
-- compiles: the registers with their names, the target stack, the literals, the emitted
-- instructions. The vectors `_vlocals` and `_targetstack` are lists with their back first, so the
-- register `p` is the element with `p` elements behind it.
pub mod Code
pub mod Registers
pub mod Outers
pub mod Patch
pub mod Peephole
pub mod Machine
pub mod Optimize
pub mod Moves
pub mod Merge
pub mod Emit
pub mod Literals
use sqnim.FuncState.Code.{Instr}
use sqnim.Prelude.{
  ℕ, zero, suc, ◌+◌, ◌-◌, ◌%◌, ◌&&◌, Bool, true, false, Option, none, some, List, [], ◌∷◌, ◌++◌,
  ltb, leb, ◌==◌, if◌then◌else◌, length,
}
use sqnim.Value.Compare.{eq_bytes}
use sqnim.Word.{word_mod}

-- `SQLocalVarInfo`; a register without a name is a temporary
pub record Local : Type 0 where
  pub name : Option (List ℕ)
  pub start_op : ℕ
  pub end_op : ℕ
  pub place : ℕ

abbrev pub temporary : Local
temporary = record { name = none; start_op = 0; end_op = 0; place = 0 }

-- UINT_MINUS_ONE, the mark of a local that a closure captures
abbrev pub outer_mark : ℕ
outer_mark = 0xffff_ffff_ffff_ffff

abbrev pub max_func_stacksize : ℕ
max_func_stacksize = 0xff

pub record FuncState : Type 0 where
  pub vlocals : List Local
  pub targets : List ℕ
  pub stacksize : ℕ
  pub outers : ℕ
  pub instructions : List Instr
  pub localvarinfos : List Local
  pub parameters : List (List ℕ)

-- `throws` is `Error`, which leaves the compiler by a long jump
pub data Compiled (A : Type 0) : Type 0 where
  ok : A → Compiled A
  throws : Compiled A

-- `GetCurrentPos() + 1`, and `GetCurrentPos()` as the unsigned number that it is stored as
abbrev pub next_pos : FuncState → ℕ
next_pos s = length s.instructions

abbrev pub current_pos : FuncState → ℕ
current_pos s = (length s.instructions + outer_mark) % word_mod

unfoldable pub alloc_stack_pos : FuncState → Compiled (FuncState × ℕ)
alloc_stack_pos s =
    let npos = length s.vlocals in
    let pushed : FuncState = record s { vlocals = temporary ∷ s.vlocals } in
    if ltb s.stacksize (npos + 1)
    then if ltb max_func_stacksize s.stacksize
      then throws
      else ok (record pushed { stacksize = npos + 1 }, npos)
    else ok (pushed, npos)

-- `PushTarget`; the argument -1 is `none`
unfoldable pub push_target : Option ℕ → FuncState → Compiled (FuncState × ℕ)
unfolding alloc_stack_pos
push_target (some n) s = ok (record s { targets = n ∷ s.targets }, n)
push_target none s = elim (alloc_stack_pos s) [
  | throws ↦ throws
  | ok (s', n) ↦ ok (record s' { targets = n ∷ s'.targets }, n)
]

-- `_vlocals[p]`
unfoldable pub register : ℕ → List Local → Option Local
register p [] = none
register p (v ∷ l) = let rest = register p l in if p == length l then some v else rest

abbrev pub is_unnamed : Option Local → Bool
is_unnamed none = false
is_unnamed (some v) = elim v.name [ none ↦ true | some n ↦ false ]

abbrev pub drop_back : List Local → List Local
drop_back [] = []
drop_back (v ∷ l) = l

-- `PopTarget`: the back of `_vlocals` goes if the popped register is a temporary
unfoldable pub pop_target : FuncState → Option (FuncState × ℕ)
unfolding register
pop_target s = elim s.targets [
  | [] ↦ none
  | p ∷ rest ↦ some (
    record s {
      targets = rest;
      vlocals = if is_unnamed (register p s.vlocals) then drop_back s.vlocals else s.vlocals;
    },
    p,
  )
]

unfoldable pub is_local : ℕ → FuncState → Bool
unfolding register
is_local p s = elim (register p s.vlocals) [
  | none ↦ false
  | some v ↦ elim v.name [ none ↦ false | some n ↦ true ]
]

unfoldable pub push_local_variable : List ℕ → FuncState → FuncState × ℕ
push_local_variable name s =
    let p = length s.vlocals in
    let v : Local = record { name = some name; start_op = next_pos s; end_op = 0; place = p } in
    (
      record s {
        vlocals = v ∷ s.vlocals;
        stacksize = if ltb s.stacksize (p + 1) then p + 1 else s.stacksize;
      },
      p,
    )

unfoldable pub add_parameter : List ℕ → FuncState → FuncState
unfolding push_local_variable
add_parameter name s =
    let s' = (push_local_variable name s).0 in record s' { parameters = s'.parameters ++ name ∷ [] }

abbrev pub has_name : List ℕ → Local → Bool
has_name name v = elim v.name [ none ↦ false | some n ↦ eq_bytes n name ]

-- the search from the back; the result -1 is `none`
unfoldable pub find_local : List ℕ → List Local → Option ℕ
unfolding eq_bytes
find_local name [] = none
find_local name (v ∷ l) =
    let rest = find_local name l in if has_name name v then some (length l) else rest

unfoldable pub get_local_variable : List ℕ → FuncState → Option ℕ
unfolding find_local
get_local_variable name s = find_local name s.vlocals

unfoldable pub mark_at : ℕ → List Local → List Local
mark_at p [] = []
mark_at p (v ∷ l) = (if p == length l then record v { end_op = outer_mark } else v) ∷ mark_at p l

unfoldable pub mark_local_as_outer : ℕ → FuncState → FuncState
unfolding mark_at
mark_local_as_outer p s = record s { vlocals = mark_at p s.vlocals; outers = s.outers + 1 }

abbrev pub is_marked : Local → Bool
is_marked v = v.end_op == outer_mark

-- `CountOuters`: the marked registers from the back down to `n`
unfoldable pub count_outers : ℕ → List Local → ℕ
count_outers n [] = 0
count_outers n (v ∷ l) =
    if leb n (length l) then (if is_marked v then 1 else 0) + count_outers n l else 0

-- one round of `SetStackSize` with the back of `_vlocals`
unfoldable pub close_local : Local → List Local → FuncState → FuncState
close_local v l s = elim v.name [
  | none ↦ record s { vlocals = l }
  | some n ↦ record s {
    vlocals = l;
    outers = if is_marked v then s.outers - 1 else s.outers;
    localvarinfos = s.localvarinfos ++ record v { end_op = current_pos s } ∷ [];
  }
]

unfoldable pub close_locals : ℕ → List Local → FuncState → FuncState
unfolding close_local
close_locals n [] s = s
close_locals n (v ∷ l) s =
    let closed = close_locals n l (close_local v l s) in if leb n (length l) then closed else s

unfoldable pub set_stack_size : ℕ → FuncState → FuncState
unfolding close_locals
set_stack_size n s = close_locals n s.vlocals s
