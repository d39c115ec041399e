-- ===== src/FuncState/Outers.antt =====
-- `GetOuterVariable` (sqfuncstate.cpp): a name that is no local of a function is looked for in the
-- functions around it, and every function on the way captures it.
use sqnim.FuncState.{FuncState, get_local_variable, mark_local_as_outer}
use sqnim.Prelude.{
  ℕ, suc, ◌+◌, ◌<◌, ◌≡◌, Option, none, some, List, [], ◌∷◌, ◌++◌, length, if◌then◌else◌, arith,
  length-append, Option-cases, inl, inr,
}
use sqnim.Value.Compare.{eq_bytes}

-- `SQOuterVar`: what a closure captures, a register of the function around it or one of that
-- function's own captured variables
pub data OuterType : Type 0 where
  ot_local ot_outer : OuterType

pub record OuterVar : Type 0 where
  pub name : List ℕ
  pub source : ℕ
  pub kind : OuterType

-- the search in `_outervalues`, from a position
unfoldable pub find_outer : List ℕ → ℕ → List OuterVar → Option ℕ
unfolding eq_bytes
find_outer name i [] = none
find_outer name i (o ∷ l) =
    let rest = find_outer name (suc i) l in if eq_bytes o.name name then some i else rest

-- a function around, with what it captures itself; the innermost comes first
pub record Level : Type 0 where
  pub state : FuncState
  pub outer_values : List OuterVar

-- what the search leaves: the captured variables of the function, the functions around it, and the
-- position, -1 being `none`
pub record Found : Type 0 where
  pub outer_values : List OuterVar
  pub around : List Level
  pub position : Option ℕ

abbrev capture : List ℕ → OuterType → ℕ → List OuterVar → List Level → Found
capture name kind source outers around = record {
  outer_values = outers ++ (record { name = name; source = source; kind = kind }) ∷ [];
  around = around;
  position = some (length outers);
}

unfoldable pub get_outer_variable : List ℕ → List OuterVar → List Level → Found
unfolding find_outer get_local_variable mark_local_as_outer
get_outer_variable name outers [] = record {
  outer_values = outers;
  around = [];
  position = find_outer name 0 outers;
}
get_outer_variable name outers (p ∷ ps) =
    let above = get_outer_variable name p.outer_values ps in
    let around = record p { outer_values = above.outer_values } ∷ above.around in
    elim (find_outer name 0 outers) [
      | some i ↦ record { outer_values = outers; around = p ∷ ps; position = some i }
      | none ↦ elim (get_local_variable name p.state) [
        | some pos ↦
            capture name ot_local pos outers
              (record p { state = mark_local_as_outer pos p.state } ∷ ps)
        | none ↦ elim above.position [
          | some pos ↦ capture name ot_outer pos outers around
          | none ↦ record { outer_values = outers; around = around; position = none }
        ]
      ]
    ]

find_outer_bound :
    (name : List ℕ) (i : ℕ) (l : List OuterVar) (k : ℕ)
    → find_outer name i l ≡ some k
    → k < i + length l
unfolding find_outer
find_outer_bound name i [] k h = cc
find_outer_bound name i (o ∷ l) k h = ground (arith, find_outer_bound name (suc i) l k)

length-snoc :
    (name : List ℕ) (source : ℕ) (kind : OuterType) (outers : List OuterVar)
    → length (outers ++ (record { name = name; source = source; kind = kind }) ∷ [])
      ≡ length outers + 1
length-snoc name source kind outers = length-append outers _

-- A position that the search gives is one of the captured variables that it leaves.
pub get_outer_variable_bound :
    (name : List ℕ) (outers : List OuterVar) (around : List Level) (k : ℕ)
    → (get_outer_variable name outers around).position ≡ some k
    → k < length (get_outer_variable name outers around).outer_values
unfolding get_outer_variable
get_outer_variable_bound name outers [] k h = ground (arith, find_outer_bound name 0 outers k)
get_outer_variable_bound name outers (p ∷ ps) k h =
    let above = get_outer_variable name p.outer_values ps in
    elim (Option-cases (find_outer name 0 outers)) [
      | inr (i, e) ↦ ground (arith, find_outer_bound name 0 outers i)
      | inl e ↦ elim (Option-cases (get_local_variable name p.state)) [
        | inr (pos, f) ↦ ground (arith, length-snoc name pos ot_local outers)
        | inl f ↦ elim (Option-cases above.position) [
          | inr (pos, g) ↦ ground (arith, length-snoc name pos ot_outer outers)
          | inl g ↦ ground arith
        ]
      ]
    ]
