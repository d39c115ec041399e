-- ===== src/Table/Clone.antt =====
-- The constructor of `SQTable`, and `Clone`, which is built without `_FAST_CLONE`.
use sqnim.Prelude.{
  ℕ, zero, suc, ◌+◌, ◌*◌, ◌≤◌, ◌<◌, ◌≡◌, ◌↔◌, inl, inr, refl, true, Bool, Option, none, some, arith,
  if◌then◌else◌, Bool-cases, ltb,
}
use sqnim.Table.Copy.{
  Copied, Copied-jump, Copied-add, alloc_nodes-IsTable, alloc_nodes-Copied, size_of_min,
}
use sqnim.Table.Invariant.{IsTable, size_of}
use sqnim.Table.Lookup.{kept_get, table_get-Lacks}
use sqnim.Table.NewSlot.{new_slot_lem}
use sqnim.Table.Walk.{table_next, table_next_lem}
use sqnim.Table.{Table, table_get, new_slot, alloc_nodes, depth, min_size}

-- `while(nInitialSize>pow2size)pow2size=pow2size<<1`
unfoldable pub fit_size : ℕ → ℕ → ℕ → Option ℕ
fit_size zero wanted n = none
fit_size (suc f) wanted n =
    let rest = fit_size f wanted (n * 2) in if ltb n wanted then rest else some n

-- the loop doubles the size, so `wanted` rounds are more than enough
unfoldable pub table_create : {K V : Type 0} → V → ℕ → Option (Table K V)
unfolding fit_size
table_create null wanted = elim (fit_size (suc wanted) wanted min_size) [
  | none ↦ none
  | some n ↦ some (alloc_nodes null n)
]

module _ {K V : Type 0} (null : V) (same : K → K → Bool) (hash : K → ℕ) where
  -- the loop of `Clone`, which takes the values as they are
  unfoldable pub clone_from : ℕ → Table K V → ℕ → Table K V → Option (Table K V)
  unfolding table_next new_slot
  clone_from zero src i dst = none
  clone_from (suc f) src i dst = elim (table_next (λ v. v) src i) [
    | none ↦ some dst
    | some (k, v, j) ↦ elim (new_slot null same hash depth dst k v) [
      | none ↦ none
      | some (dst', created) ↦ clone_from f src j dst'
    ]
  ]

  unfoldable pub table_clone : Table K V → Option (Table K V)
  unfolding table_create clone_from
  table_clone t = elim (table_create null t.size) [
    | none ↦ none
    | some dst ↦ clone_from (suc t.size) t 0 dst
  ]

fit_size_lem :
    (f wanted p : ℕ)
    → 0 < f
    → wanted < f + size_of p
    → (q : ℕ) × (fit_size f wanted (size_of p) ≡ some (size_of q)) × (wanted ≤ size_of q)
unfolding fit_size
fit_size_lem zero wanted p pos h = absurd (omega (arith, pos))
fit_size_lem (suc f) wanted p pos h = elim (Bool-cases (ltb (size_of p) wanted)) [
  | inl more ↦
      let (q, run, fits) =
        fit_size_lem f wanted (suc p) (ground arith) (ground (arith, size_of_min p)) in
      let twice : size_of p * 2 ≡ size_of (suc p) = omega arith in
      (q, rw (fit_size, more, twice) run, fits)
  | inr enough ↦ (p, rw (fit_size, enough) refl, ground arith)
]

module _ {K V : Type 0} (null : V) where
  table_create_lem :
      (wanted : ℕ)
      → (q : ℕ) × (table_create {K = K} null wanted ≡ some (alloc_nodes null (size_of q)))
        × (wanted ≤ size_of q)
  unfolding table_create
  table_create_lem wanted =
      let (q, run, fits) = fit_size_lem (suc wanted) wanted 0 (omega arith) (omega arith) in
      (q, rw (table_create, run) refl, fits)

-- A new table of any initial size is well formed, has at least so many nodes, and no key.
pub table_create-table_get :
    {K V : Type 0} (null : V) (same : K → K → Bool) (hash : K → ℕ) (real : V → V)
    → ((a b : K) → (same a b ≡ true) ↔ (a ≡ b))
    → (wanted : ℕ)
    → (t : Table K V) × (table_create null wanted ≡ some t)
      × IsTable hash t
      × (wanted ≤ t.size)
      × ((j : K) → table_get null same hash real t (some j) ≡ none)
table_create-table_get null same hash real same_iff wanted =
    let (q, run, fits) = table_create_lem null wanted in
    let w = alloc_nodes-IsTable null hash q in
    (
      _,
      run,
      w,
      fits,
      λ j.
          table_get-Lacks null same same_iff hash real (alloc_nodes null (size_of q)) w j
            (λ i hi e. cc e),
    )

module _ {K V : Type 0} (null : V) (same : K → K → Bool)
    (same_iff : (a b : K) → (same a b ≡ true) ↔ (a ≡ b)) (hash : K → ℕ) (src : Table K V)
    (w : IsTable hash src) where
  clone_from_lem :
      (f i : ℕ) (dst : Table K V)
      → src.size < f + i
      → i ≤ src.size
      → IsTable hash dst
      → Copied i src.nodes dst
      → (t : Table K V) × (clone_from null same hash f src i dst ≡ some t)
        × IsTable hash t
        × Copied src.size src.nodes t
  unfolding clone_from
  clone_from_lem zero i dst room le d c = absurd (omega (arith, room, le))
  clone_from_lem (suc f) i dst room le d c = elim (table_next_lem (λ v. v) src i) [
    | inl (ended, bare) ↦
        (dst, rw (clone_from, ended) refl, d, Copied-jump i src.size src.nodes dst le bare c)
    | inr (k, p, found, low, high, at, bare) ↦
        let (dst', created, stored, d', s, _) =
          new_slot_lem null same same_iff hash 1 dst k (src.nodes p).val d in
        let (t, run, whole, copy) =
          clone_from_lem f (suc p) dst' (omega (arith, room, low)) (omega (arith, high)) d' (
            Copied-add p src.size src.nodes dst dst' k high w.keyed.unique at
              (Copied-jump i p src.nodes dst low bare c) s) in
        (t, rw (clone_from, found, stored) run, whole, copy)
  ]

-- A clone of a well-formed table is a well-formed table that answers every key as the table does.
pub table_clone-table_get :
    {K V : Type 0} (null : V) (same : K → K → Bool) (hash : K → ℕ) (real : V → V)
    → ((a b : K) → (same a b ≡ true) ↔ (a ≡ b))
    → (t : Table K V) → IsTable hash t
    → (t' : Table K V) × (table_clone null same hash t ≡ some t')
      × IsTable hash t'
      × ((j : K)
          → table_get null same hash real t' (some j) ≡ table_get null same hash real t (some j))
unfolding table_clone
table_clone-table_get {K = K} null same hash real same_iff t w =
    let (q, made, fits) = table_create_lem {K = K} null t.size in
    let (t', run, w', c) =
      clone_from_lem null same same_iff hash t w (suc t.size) 0 (alloc_nodes null (size_of q))
        (omega arith) (omega arith) (alloc_nodes-IsTable null hash q)
        (alloc_nodes-Copied null hash (size_of q) t.nodes) in
    (
      t',
      rw (table_clone, made) run,
      w',
      λ j. kept_get null same same_iff hash real t t' w w' j (c.to j) (c.from j),
    )
