-- ===== src/Table.antt =====
-- `SQTable` (sqtable.h, sqtable.cpp): the hash table behind script tables. The nodes stand in one
-- array, and the chains of colliding keys run through it. A node is its position; `first_free` is
-- where the search for a free node goes on, downwards. The number of nodes is a power of two, so
-- the mask `hash & (_numofnodes - 1)` is the remainder. A null key is `none`.
pub mod Chain
pub mod Room
pub mod Keys
pub mod Count
pub mod Places
pub mod Invariant
pub mod Insert
pub mod Place
pub mod Copy
pub mod Rehash
pub mod Lookup
pub mod NewSlot
pub mod Erase
pub mod Walk
pub mod Clone
use sqnim.Prelude.{
  ℕ, zero, suc, ◌+◌, ◌-◌, ◌*◌, ◌/◌, ◌%◌, ◌&&◌, Bool, true, false, not, Option, none, some, ltb, leb,
  ◌==◌, if◌then◌else◌,
}

pub record Node (K V : Type 0) : Type 0 where
  pub key : Option K
  pub val : V
  pub next : Option ℕ

-- `_nodes` of length `_numofnodes`, `_firstfree` and `_usednodes`
pub record Table (K V : Type 0) : Type 0 where
  pub nodes : ℕ → Node K V
  pub size : ℕ
  pub first_free : ℕ
  pub used : ℕ

-- what inserting does before it may have to rehash: the key was there, or has a new node, or has
-- the last node and no value yet; `broken` is a chain that does not lead where it has to
pub data Placed (K V : Type 0) : Type 0 where
  found placed full : Table K V → Placed K V
  broken : Placed K V

-- MINPOWER2
abbrev pub min_size : ℕ
min_size = 4

abbrev pub update : {A : Type 0} → ℕ → A → (ℕ → A) → ℕ → A
update i a f j = if j == i then a else f j

module _ {K V : Type 0} where
  -- `while (othern->next != mp) othern = othern->next`
  unfoldable pub find_previous : ℕ → (ℕ → Node K V) → ℕ → ℕ → Option ℕ
  find_previous zero nodes mp i = none
  find_previous (suc f) nodes mp i = elim (nodes i).next [
    | none ↦ none
    | some j ↦ elim (j == mp) [ true ↦ some i | false ↦ find_previous f nodes mp j ]
  ]

  -- the free place `n` goes into the chain behind `mp`
  abbrev pub chain_node : (ℕ → Node K V) → ℕ → ℕ → ℕ → Node K V
  chain_node nodes mp n =
      update mp (record (nodes mp) { next = some n })
        (update n (record (nodes n) { next = (nodes mp).next }) nodes)

  abbrev pub is_free : Node K V → Bool
  is_free n = elim n.key [ some k ↦ false | none ↦ elim n.next [ some j ↦ false | none ↦ true ] ]

  -- `/* correct `firstfree' */`
  unfoldable pub correct_free : (ℕ → Node K V) → ℕ → Option ℕ
  correct_free nodes zero = if is_free (nodes 0) then some 0 else none
  correct_free nodes (suc f) =
      let below = correct_free nodes f in if is_free (nodes (suc f)) then some (suc f) else below

  -- `for (i = 0; i < oldsize; i++)` of `Rehash`, with `c` rounds left
  unfoldable pub reinsert :
      (Table K V → K → V → Option (Table K V × Bool))
      → ℕ
      → ℕ
      → (ℕ → Node K V)
      → Table K V
      → Option (Table K V)
  reinsert insert zero i old t = some t
  reinsert insert (suc c) i old t = elim (old i).key [
    | none ↦ reinsert insert c (suc i) old t
    | some k ↦ elim (insert t k (old i).val) [
      | none ↦ none
      | some (t', created) ↦ reinsert insert c (suc i) old t'
    ]
  ]

module _ {K V : Type 0} (null : V) where
  abbrev pub free_node : Node K V
  free_node = record { key = none; val = null; next = none }

  abbrev pub alloc_nodes : ℕ → Table K V
  alloc_nodes n = record { nodes = λ i. free_node; size = n; first_free = n - 1; used = 0 }

  -- the colliding node goes from `mp` to the free place `n`, and `o`, the node before it, with it
  abbrev pub move_node : (ℕ → Node K V) → ℕ → ℕ → ℕ → ℕ → Node K V
  move_node nodes o mp n =
      update mp free_node
        (update n (nodes mp) (update o (record (nodes o) { next = some n }) nodes))

  -- `_ClearNodes` leaves the chains; the rehash drops them
  abbrev pub clear_nodes : Table K V → Table K V
  clear_nodes t = record t { nodes = λ i. record (t.nodes i) { key = none; val = null } }

module _ {K : Type 0} (hash : K → ℕ) where
  abbrev pub hash_obj : Option K → ℕ
  hash_obj none = 0
  hash_obj (some k) = hash k

module _ {K V : Type 0} (hash : K → ℕ) where
  abbrev pub main : Table K V → K → ℕ
  main t k = hash k % t.size

module _ {K : Type 0} (same : K → K → Bool) where
  abbrev pub same_key : Option K → Option K → Bool
  same_key none none = true
  same_key none (some k) = false
  same_key (some j) none = false
  same_key (some j) (some k) = same j k

module _ {K V : Type 0} (same : K → K → Bool) where
  -- the loop of `_Get`; no chain is longer than the array
  unfoldable pub find : ℕ → (ℕ → Node K V) → Option K → ℕ → Option ℕ
  find zero nodes key i = none
  find (suc f) nodes key i = elim (same_key same (nodes i).key key) [
    | true ↦ some i
    | false ↦ elim (nodes i).next [ none ↦ none | some j ↦ find f nodes key j ]
  ]

-- the size that `Rehash` allocates: `none` if it leaves the table
unfoldable pub rehash_size : Bool → ℕ → ℕ → Option ℕ
rehash_size force used old =
    if leb (old - old / 4) used
    then some (old * 2)
    else if leb used (old / 4) && ltb min_size old
    then some (old / 2)
    else if force
    then some old
    else none

-- the depth that is enough
abbrev pub depth : ℕ
depth = 3

module _ {K V : Type 0} (null : V) where
  unfoldable pub rehash :
      (Table K V → K → V → Option (Table K V × Bool)) → Bool → Table K V → Option (Table K V)
  unfolding reinsert rehash_size
  rehash insert force t =
      let old : ℕ = if ltb t.size 4 then 4 else t.size in
      elim (rehash_size force t.used old) [
        | none ↦ some t
        | some n ↦ reinsert insert old 0 t.nodes (alloc_nodes null n)
      ]

module _ {K V : Type 0} (null : V) (hash : K → ℕ) where
  -- the nodes with a place for a new key, and the place
  unfoldable pub make_room : Table K V → ℕ → Option ((ℕ → Node K V) × ℕ)
  unfolding find_previous
  make_room t mp = elim (t.nodes mp).key [
    | none ↦ some (t.nodes, mp)
    | some k ↦ elim (ltb t.first_free mp && not (main hash t k == mp)) [
      | true ↦ elim (find_previous t.size t.nodes mp (main hash t k)) [
        | none ↦ none
        | some o ↦ some (move_node null t.nodes o mp t.first_free, mp)
      ]
      | false ↦ some (chain_node t.nodes mp t.first_free, t.first_free)
    ]
  ]

module _ {K V : Type 0} where
  unfoldable pub fill : Table K V → K → V → (ℕ → Node K V) → ℕ → Placed K V
  unfolding correct_free
  fill t k v nodes mp =
      let keyed : ℕ → Node K V = update mp (record (nodes mp) { key = some k }) nodes in
      elim (correct_free keyed t.first_free) [
        | none ↦ full (record t { nodes = keyed; first_free = 0 })
        | some f ↦ placed (record t {
          nodes = update mp (record (keyed mp) { val = v }) keyed;
          first_free = f;
          used = t.used + 1;
        })
      ]

module _ {K V : Type 0} (null : V) (same : K → K → Bool) (hash : K → ℕ) where
  unfoldable pub get_node : Table K V → Option K → Option ℕ
  unfolding find
  get_node t key = find same t.size t.nodes key (hash_obj hash key % t.size)

  -- `real` follows a weak reference
  unfoldable pub table_get : (V → V) → Table K V → Option K → Option V
  unfolding get_node
  table_get real t none = none
  table_get real t (some k) = elim (get_node t (some k)) [
    | none ↦ none
    | some i ↦ some (real (t.nodes i).val)
  ]

  -- `Set`, with no test for a null key
  unfoldable pub table_set : Table K V → Option K → V → Option (Table K V)
  unfolding get_node
  table_set t key v = elim (get_node t key) [
    | none ↦ none
    | some i ↦ some (record t { nodes = update i (record (t.nodes i) { val = v }) t.nodes })
  ]

  -- the body of `NewSlot` up to the rehash
  unfoldable pub place : Table K V → K → V → Placed K V
  unfolding get_node make_room fill
  place t k v = elim (get_node t (some k)) [
    | some i ↦ found (record t { nodes = update i (record (t.nodes i) { val = v }) t.nodes })
    | none ↦ elim (make_room null hash t (main hash t k)) [
      | none ↦ broken
      | some (nodes, mp) ↦ fill t k v nodes mp
    ]
  ]

  -- `NewSlot` and `Rehash` call each other: the fuel is the depth of the calls. The result says
  -- whether the slot is new.
  unfoldable pub new_slot : ℕ → Table K V → K → V → Option (Table K V × Bool)
  unfolding place rehash
  new_slot zero t k v = none
  new_slot (suc f) t k v = elim (place t k v) [
    | broken ↦ none
    | found t' ↦ some (t', false)
    | placed t' ↦ some (t', true)
    | full t' ↦ elim (rehash null (new_slot f) true t') [
      | none ↦ none
      | some t'' ↦ new_slot f t'' k v
    ]
  ]

  unfoldable pub table_remove : Table K V → K → Option (Table K V)
  unfolding get_node new_slot rehash
  table_remove t k = elim (get_node t (some k)) [
    | none ↦ some t
    | some i ↦ rehash null (new_slot depth) false (record t {
      nodes = update i (record (t.nodes i) { key = none; val = null }) t.nodes;
      used = t.used - 1;
    })
  ]

  unfoldable pub table_clear : Table K V → Option (Table K V)
  unfolding new_slot rehash
  table_clear t = rehash null (new_slot depth) true (record (clear_nodes null t) { used = 0 })
