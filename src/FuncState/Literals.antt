-- ===== src/FuncState/Literals.antt =====
-- `GetConstant` (sqfuncstate.cpp): the numbers of a function's literals, in a table of the engine.
use sqnim.FuncState.{Compiled, ok, throws}
use sqnim.Prelude.{
  ℕ, ◌+◌, ◌<◌, ◌≡◌, ◌↔◌, ◌⊎◌, inl, inr, refl, sym, ◌∙◌, Bool, true, Option, none, some, arith, ltb,
  if◌then◌else◌, Bool-cases, Option-cases,
}
use sqnim.Table.Invariant.{IsTable}
use sqnim.Table.NewSlot.{new_slot-table_get}
use sqnim.Table.{Table, table_get, new_slot, depth}

-- MAX_LITERALS
abbrev pub max_literals : ℕ
max_literals = 0x7fff_ffff

-- `_literals` and `_nliterals`
pub record Literals (K : Type 0) : Type 0 where
  pub table : Table K ℕ
  pub count : ℕ

module _ {K : Type 0} (same : K → K → Bool) (hash : K → ℕ) where
  abbrev pub number_of : Literals K → K → Option ℕ
  number_of s k = table_get 0 same hash (λ n. n) s.table (some k)

  -- `none` is a table that runs out of depth
  unfoldable pub get_constant : K → Literals K → Option (Compiled (Literals K × ℕ))
  unfolding table_get new_slot
  get_constant k s = elim (number_of s k) [
    | some n ↦ some (ok (s, n))
    | none ↦ elim (new_slot 0 same hash depth s.table k s.count) [
      | none ↦ none
      | some (t, created) ↦ some (
          if ltb max_literals (s.count + 1)
          then throws
          else ok (record { table = t; count = s.count + 1 }, s.count))
    ]
  ]

-- the table is well formed, and the literals have different numbers below the count
pub record IsNumbered {K : Type 0} (same : K → K → Bool) (hash : K → ℕ) (s : Literals K)
    : Type 0 where
  pub table : IsTable hash s.table
  pub below : (k : K) (n : ℕ) → number_of same hash s k ≡ some n → n < s.count
  pub distinct :
      (j k : K) (n : ℕ)
      → number_of same hash s j ≡ some n
      → number_of same hash s k ≡ some n
      → j ≡ k

module _ {K : Type 0} (same : K → K → Bool) (hash : K → ℕ)
    (same_iff : (a b : K) → (same a b ≡ true) ↔ (a ≡ b)) (s : Literals K)
    (w : IsNumbered same hash s) (k : K) (fresh : number_of same hash s k ≡ none) (s' : Literals K)
    (more : s'.count ≡ s.count + 1) (well : IsTable hash s'.table)
    (answers : (j : K)
      → number_of same hash s' j
        ≡ (if same j k then some s.count else number_of same hash s j)) where
  numbered :
      (j : K) (n : ℕ)
      → number_of same hash s' j ≡ some n
      → ((j ≡ k) × (n ≡ s.count)) ⊎ ((number_of same hash s j ≡ some n) × (n < s.count))
  numbered j n e = elim (Bool-cases (same j k)) [
    | inl hit ↦ inl ((same_iff j k).0 hit, ground (arith, answers j))
    | inr miss ↦
        let e' : number_of same hash s j ≡ some n = ground (arith, answers j) in
        inr (e', w.below j n e')
  ]

  added-IsNumbered : IsNumbered same hash s'
  added-IsNumbered = record {
    table = well;
    below = λ j n e. elim (numbered j n e) [
      | inl (at, is) ↦ omega (arith, is, more)
      | inr (old, less) ↦ omega (arith, less, more)
    ];
    distinct = λ i j n ei ej. elim (numbered i n ei) [
      | inl (at, is) ↦ elim (numbered j n ej) [
        | inl (at', _) ↦ at ∙ sym at'
        | inr (_, less) ↦ absurd (omega (arith, is, less))
      ]
      | inr (old, less) ↦ elim (numbered j n ej) [
        | inl (_, is) ↦ absurd (omega (arith, is, less))
        | inr (old', _) ↦ w.distinct i j n old old'
      ]
    ];
  }

-- For well-numbered literals, `GetConstant` either fails because a new literal would be one too
-- many; or gives the literal a number below the count, which it has from then on. The literals stay
-- well numbered, and every other literal keeps its number.
pub get_constant-IsNumbered :
    {K : Type 0} (same : K → K → Bool) (hash : K → ℕ)
    → ((a b : K) → (same a b ≡ true) ↔ (a ≡ b))
    → (k : K) (s : Literals K) → IsNumbered same hash s
    → ((get_constant same hash k s ≡ some throws) × (max_literals < s.count + 1))
      ⊎ ((s' : Literals K) × (n : ℕ) × (get_constant same hash k s ≡ some (ok (s', n)))
          × (n < s'.count)
          × IsNumbered same hash s'
          × ((j : K)
              → number_of same hash s' j ≡ (if same j k then some n else number_of same hash s j)))
unfolding get_constant
get_constant-IsNumbered same hash same_iff k s w = elim (Option-cases (number_of same hash s k)) [
  | inr (n, e) ↦ inr (
    s,
    n,
    rw (get_constant, e) refl,
    w.below k n e,
    w,
    λ j. elim (Bool-cases (same j k)) [
      | inl hit ↦ rw (hit, (same_iff j k).0 hit) e
      | inr miss ↦ rw miss refl
    ],
  )
  | inl e ↦
      let (t, created, run, well, answers, _) =
        new_slot-table_get 0 same hash (λ n. n) same_iff s.table k s.count w.table in
      elim (Bool-cases (ltb max_literals (s.count + 1))) [
        | inl many ↦ inl (rw (get_constant, e, run, many) refl, ground (arith, many))
        | inr room ↦ inr (
          record { table = t; count = s.count + 1 },
          s.count,
          rw (get_constant, e, run, room) refl,
          omega arith,
          added-IsNumbered same hash same_iff s w k e (record { table = t; count = s.count + 1 })
              refl well answers,
          answers,
        )
      ]
]
