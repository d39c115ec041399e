-- ===== src/Tests/Tables.antt =====
-- Hash tables.
use sqnim.FuncState.Literals.{
  Literals, IsNumbered, number_of, get_constant, max_literals, get_constant-IsNumbered,
}
use sqnim.FuncState.{ok, throws}
use sqnim.Prelude.{
  Option, ◌+◌, Bool, true, ℕ, suc, ◌≡◌, ◌↔◌, ◌⊎◌, inl, inr, refl, List, [], ◌∷◌, some, none, arith,
  ◌≤◌, ◌<◌, ◌%◌, ◌==◌, if◌then◌else◌,
}
use sqnim.Table.Copy.{alloc_nodes-IsTable}
use sqnim.Table.Lookup.{table_get-Lacks}
use sqnim.Table.Chain.{Linked}
use sqnim.Table.Clone.{table_clone, table_clone-table_get}
use sqnim.Table.Erase.{table_set-table_get, table_remove-table_get}
use sqnim.Table.Invariant.{IsTable}
use sqnim.Table.Keys.{Keyed}
use sqnim.Table.NewSlot.{new_slot-table_get}
use sqnim.Table.Walk.{table_next, table_next-table_get, Bare}
use sqnim.Table.{alloc_nodes, Table, depth, new_slot, table_get, table_set, table_remove}

abbrev hash : ℕ → ℕ
hash k = k

abbrev same : ℕ → ℕ → Bool
same a b = a == b

same_iff : (a b : ℕ) → (same a b ≡ true) ↔ (a ≡ b)
same_iff a b = (λ h. ground arith, λ h. ground arith)

abbrev real : ℕ → ℕ
real v = v

-- the keys 1 and 5 on one chain, 2 on another; one node is free
abbrev three_keys : Table ℕ ℕ
three_keys = record {
  nodes = λ i.
      if i == 1
      then record { key = some 1; val = 10; next = some 3 }
      else if i == 2
      then record { key = some 2; val = 20; next = none }
      else if i == 3
      then record { key = some 5; val = 50; next = none }
      else record { key = none; val = 0; next = none };
  size = 4;
  first_free = 0;
  used = 3;
}

abbrev chains : ℕ → List ℕ
chains i = if i == 1 then 1 ∷ 3 ∷ [] else i ∷ []

abbrev main_of : ℕ → ℕ
main_of k = hash k % 4

three_keys-Linked : Linked 4 1 three_keys.nodes chains
three_keys-Linked = record {
  next_in = λ i j hi e. ground arith;
  next_injective = λ i j k hi hj ei ej. ground arith;
  chain_end = λ i hi e. ground arith;
  chain_link = λ i j hi e. ground arith;
  short = λ i hi. ground arith;
}

key_cases :
    (i k : ℕ)
    → (three_keys.nodes i).key ≡ some k
    → ((i ≡ 1) × (k ≡ 1)) ⊎ (((i ≡ 2) × (k ≡ 2)) ⊎ ((i ≡ 3) × (k ≡ 5)))
key_cases i k e = ground arith

home_key :
    (i k x : ℕ)
    → (three_keys.nodes i).key ≡ some k
    → (three_keys.nodes (main_of k)).key ≡ some x
    → main_of x ≡ main_of k
home_key i k x e f = elim (key_cases i k e) [
  | inl (at, is) ↦
      let first : (three_keys.nodes 1).key ≡ some x = rw is at f in
      let one : x ≡ 1 = ground arith in rw (is, one) refl
  | inr (inl (at, is)) ↦
      let second : (three_keys.nodes 2).key ≡ some x = rw is at f in
      let two : x ≡ 2 = ground arith in rw (is, two) refl
  | inr (inr (at, is)) ↦
      let first : (three_keys.nodes 1).key ≡ some x = rw is at f in
      let one : x ≡ 1 = ground arith in rw (is, one) refl
]

three_keys-Keyed : Keyed main_of 4 1 three_keys.nodes chains
three_keys-Keyed = record {
  linked = three_keys-Linked;
  reached = λ i k hi e. elim (key_cases i k e) [
    | inl (at, is) ↦ rw (at, is) refl
    | inr (inl (at, is)) ↦ rw (at, is) refl
    | inr (inr (at, is)) ↦ rw (at, is) refl
  ];
  home = λ i k x hi e f. home_key i k x e f;
  foreign = λ i k hi e n. ground (arith, key_cases i k e);
  unique = λ i j k hi hj e f. ground (arith, key_cases i k e, key_cases j k f);
}

three_keys-IsTable : IsTable hash three_keys
three_keys-IsTable = record {
  chains = chains;
  keyed = three_keys-Keyed;
  free_in = omega arith;
  free_key = refl;
  free_next = refl;
  power = 0;
  sized = refl;
  counted = refl;
}

-- a fourth key makes the table grow
new_slot-table_get_example :
    (t' : Table ℕ ℕ) × (created : Bool) × (new_slot 0 same hash depth three_keys 9 90
      ≡ some (t', created))
    × IsTable hash t'
    × ((j : ℕ)
        → table_get 0 same hash real t' (some j)
          ≡ (if same j 9 then some 90 else table_get 0 same hash real three_keys (some j)))
    × (created ≡ true → table_get 0 same hash real three_keys (some 9) ≡ none)
new_slot-table_get_example =
    new_slot-table_get 0 same hash real same_iff three_keys 9 90 three_keys-IsTable

abbrev five : Option ℕ
five = some 5

table_set-table_get_example :
    ((table_set 0 same hash three_keys five 55 ≡ none)
      × (table_get 0 same hash real three_keys five ≡ none))
    ⊎ ((t' : Table ℕ ℕ) × (table_set 0 same hash three_keys five 55 ≡ some t')
        × IsTable hash t'
        × (((five ≡ none) × (i : ℕ) × (i < 4) × ((three_keys.nodes i).key ≡ none))
            ⊎ ((u : ℕ) × (table_get 0 same hash real three_keys five ≡ some u)))
        × ((j : ℕ)
            → table_get 0 same hash real t' (some j)
              ≡ (if same j 5 then some 55 else table_get 0 same hash real three_keys (some j))))
table_set-table_get_example =
    table_set-table_get 0 same hash real same_iff three_keys five 55 three_keys-IsTable

table_remove-table_get_example :
    (t' : Table ℕ ℕ) × (table_remove 0 same hash three_keys 5 ≡ some t')
    × IsTable hash t'
    × ((j : ℕ)
        → table_get 0 same hash real t' (some j)
          ≡ (if same j 5 then none else table_get 0 same hash real three_keys (some j)))
table_remove-table_get_example =
    table_remove-table_get 0 same hash real same_iff three_keys 5 three_keys-IsTable

table_next-table_get_example :
    ((table_next real three_keys 2 ≡ none) × Bare three_keys.nodes 2 three_keys.size)
    ⊎ ((k : ℕ) × (v : ℕ) × (p : ℕ) × (table_next real three_keys 2 ≡ some (k, v, suc p))
        × (2 ≤ p)
        × (p < three_keys.size)
        × Bare three_keys.nodes 2 p
        × (table_get 0 same hash real three_keys (some k) ≡ some v))
table_next-table_get_example =
    table_next-table_get 0 same hash real same_iff three_keys 2 three_keys-IsTable

table_clone-table_get_example :
    (t' : Table ℕ ℕ) × (table_clone 0 same hash three_keys ≡ some t')
    × IsTable hash t'
    × ((j : ℕ)
        → table_get 0 same hash real t' (some j) ≡ table_get 0 same hash real three_keys (some j))
table_clone-table_get_example =
    table_clone-table_get 0 same hash real same_iff three_keys three_keys-IsTable

abbrev no_literals : Literals ℕ
no_literals = record { table = alloc_nodes 0 4; count = 0 }

no_number : (k : ℕ) → number_of same hash no_literals k ≡ none
no_number k =
    table_get-Lacks 0 same same_iff hash real (alloc_nodes 0 4) (alloc_nodes-IsTable 0 hash 0) k
      (λ i hi e. cc e)

no_literals-IsNumbered : IsNumbered same hash no_literals
no_literals-IsNumbered = record {
  table = alloc_nodes-IsTable 0 hash 0;
  below = λ k n e. absurd (cc (no_number k, e));
  distinct = λ j k n e f. absurd (cc (no_number j, e));
}

get_constant-IsNumbered_example :
    ((get_constant same hash 7 no_literals ≡ some throws) × (max_literals < 0 + 1))
    ⊎ ((s' : Literals ℕ) × (n : ℕ) × (get_constant same hash 7 no_literals ≡ some (ok (s', n)))
        × (n < s'.count)
        × IsNumbered same hash s'
        × ((j : ℕ)
            → number_of same hash s' j
              ≡ (if same j 7 then some n else number_of same hash no_literals j)))
get_constant-IsNumbered_example =
    get_constant-IsNumbered same hash same_iff 7 no_literals no_literals-IsNumbered
