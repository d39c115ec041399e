-- ===== src/Table/Walk.antt =====
-- `Next` of sqtable.cpp: the walk over the entries of a table.
use sqnim.Prelude.{
  ℕ, zero, suc, ◌-◌, ◌≤◌, ◌<◌, ◌≡◌, ◌⊎◌, ◌↔◌, inl, inr, refl, true, Bool, Option, none, some, arith,
  Option-cases,
}
use sqnim.Table.Invariant.{IsTable}
use sqnim.Table.Lookup.{table_get-Entry}
use sqnim.Table.{Node, Table, table_get}

module _ {K V : Type 0} where
  -- `Next` from a position, with `c` nodes left
  unfoldable pub next_from : (V → V) → ℕ → ℕ → Table K V → Option (K × V × ℕ)
  next_from real zero i t = none
  next_from real (suc c) i t = elim (t.nodes i).key [
    | none ↦ next_from real c (suc i) t
    | some k ↦ some (k, real (t.nodes i).val, suc i)
  ]

  unfoldable pub table_next : (V → V) → Table K V → ℕ → Option (K × V × ℕ)
  unfolding next_from
  table_next real t i = next_from real (t.size - i) i t

  -- no node from `i` on and below `j` holds a key
  abbrev pub Bare : (ℕ → Node K V) → ℕ → ℕ → Type 0
  Bare nodes i j = (p : ℕ) → i ≤ p → p < j → (nodes p).key ≡ none

  -- what `Next` may answer
  abbrev pub Nexts : (V → V) → Table K V → ℕ → Option (K × V × ℕ) → Type 0
  Nexts real t i o =
      ((o ≡ none) × Bare t.nodes i t.size)
      ⊎ ((k : K) × (p : ℕ) × (o ≡ some (k, real (t.nodes p).val, suc p))
          × (i ≤ p)
          × (p < t.size)
          × ((t.nodes p).key ≡ some k)
          × Bare t.nodes i p)

  next_from_lem :
      (real : V → V) (c i : ℕ) (t : Table K V)
      → t.size - i ≡ c
      → Nexts real t i (next_from real c i t)
  unfolding next_from
  next_from_lem real zero i t h = inl (refl, λ p hi hs. absurd (omega (arith, hi, hs, h)))
  next_from_lem real (suc c) i t h = elim (Option-cases (t.nodes i).key) [
    | inr (k, e) ↦ inr (
      k,
      i,
      rw (next_from, e) refl,
      omega arith,
      omega (arith, h),
      e,
      λ p hi hp. absurd (omega (arith, hi, hp)),
    )
    | inl e ↦ elim (next_from_lem real c (suc i) t (omega (arith, h))) [
      | inl (run, bare) ↦ inl (rw (next_from, e) run, λ p hi hp. ground (arith, bare p, hi, hp, e))
      | inr (k, p, run, low, high, at, bare) ↦ inr (
        k,
        p,
        rw (next_from, e) run,
        omega (arith, low),
        high,
        at,
        λ q hi hq. ground (arith, bare q, hi, hq, e),
      )
    ]
  ]

  pub table_next_lem : (real : V → V) (t : Table K V) (i : ℕ) → Nexts real t i (table_next real t i)
  unfolding table_next
  table_next_lem real t i = next_from_lem real (t.size - i) i t refl

-- From any position, `Next` of a well-formed table gives the first key from there on with the value
-- that the table answers for it, and the position after its node; or it ends, and no node from
-- there on has a key.
pub table_next-table_get :
    {K V : Type 0} (null : V) (same : K → K → Bool) (hash : K → ℕ) (real : V → V)
    → ((a b : K) → (same a b ≡ true) ↔ (a ≡ b))
    → (t : Table K V) (i : ℕ) → IsTable hash t
    → ((table_next real t i ≡ none) × Bare t.nodes i t.size)
      ⊎ ((k : K) × (v : V) × (p : ℕ) × (table_next real t i ≡ some (k, v, suc p))
          × (i ≤ p)
          × (p < t.size)
          × Bare t.nodes i p
          × (table_get null same hash real t (some k) ≡ some v))
table_next-table_get null same hash real same_iff t i w = elim (table_next_lem real t i) [
  | inl ended ↦ inl ended
  | inr (k, p, run, low, high, at, bare) ↦ inr (
    k,
    real (t.nodes p).val,
    p,
    run,
    low,
    high,
    bare,
    table_get-Entry null same same_iff hash real t w k (t.nodes p).val (p, high, at, refl),
  )
]
