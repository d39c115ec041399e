-- ===== src/Table/NewSlot.antt =====
-- `NewSlot` as an update of a finite map.
use sqnim.Prelude.{
  ℕ, suc, ◌<◌, ◌≡◌, ◌≢◌, ◌↔◌, inl, inr, refl, true, false, Bool, Option, none, some, if◌then◌else◌,
}
use sqnim.Table.Copy.{Copied}
use sqnim.Table.Insert.{Stores}
use sqnim.Table.Invariant.{IsTable}
use sqnim.Table.Lookup.{stored_get, table_get-Lacks}
use sqnim.Table.Place.{Crowded, place_lem}
use sqnim.Table.Rehash.{rehash_lem, rehash_size_forced, IsFull-Rehashable}
use sqnim.Table.{Table, full, table_get, new_slot, place, depth}

module _ {K V : Type 0} where
  -- storing again in a copy
  Stores-again :
      (t t₁ t₂ t₃ : Table K V) (k : K) (x v : V)
      → Stores t t₁ k x
      → Copied t₁.size t₁.nodes t₂
      → Stores t₂ t₃ k v
      → Stores t t₃ k v
  Stores-again t t₁ t₂ t₃ k x v a c b = record {
    new = b.new;
    old = λ j y e ne. b.old j y (c.to j y (a.old j y e ne)) ne;
    only = λ j y e. elim (b.only j y e) [
      | inl at ↦ inl at
      | inr (off, e₂) ↦ elim (a.only j y (c.from j y e₂)) [
        | inl (at, _) ↦ absurd (off at)
        | inr there ↦ inr there
      ]
    ];
  }

module _ {K V : Type 0} (null : V) (same : K → K → Bool)
    (same_iff : (a b : K) → (same a b ≡ true) ↔ (a ≡ b)) (hash : K → ℕ) where
  -- what inserting gives: only a missing key is reported as a new slot
  abbrev Inserted : Table K V → K → V → Option (Table K V × Bool) → Type 0
  Inserted t k v o =
      (t' : Table K V) × (created : Bool) × (o ≡ some (t', created))
      × IsTable hash t'
      × Stores t t' k v
      × (created ≡ true → (i : ℕ) → i < t.size → (t.nodes i).key ≢ some k)

  found-Inserted :
      (f : ℕ) (t : Table K V) (k : K) (v : V)
      → IsTable hash t
      → ((i : ℕ) × (i < t.size) × ((t.nodes i).key ≡ some k))
      → Inserted t k v (new_slot null same hash (suc f) t k v)
  unfolding new_slot
  found-Inserted f t k v w (i, hi, at) = elim (place_lem null same same_iff hash t w k v) [
    | inl (t', e, kept) ↦
        (t', false, rw (new_slot, e) refl, kept.table, kept.stores, λ p. absurd (cc p))
    | inr (absent, _) ↦ absurd (absent i hi at)
  ]

  Crowded-Inserted :
      (f : ℕ) (t t₁ : Table K V) (k : K) (v : V)
      → place null same hash t k v ≡ full t₁
      → Crowded t t₁ k
      → ((i : ℕ) → i < t.size → (t.nodes i).key ≢ some k)
      → Inserted t k v (new_slot null same hash (suc (suc f)) t k v)
  unfolding new_slot
  Crowded-Inserted f t t₁ k v e c absent =
      elim (rehash_lem null same same_iff hash f true t₁
        (IsFull-Rehashable null same same_iff hash t₁ c.table)) [
          | inl (stays, _) ↦ absurd (rehash_size_forced t₁.used t₁.size stays)
          | inr (t₂, run, w₂, d₂, copied) ↦
              let (i, hi, at, _) = copied.to k c.val c.stores.new in
              let (t₃, created, again, w₃, s₃, _) = found-Inserted f t₂ k v w₂ (i, hi, at) in
              (
                t₃,
                created,
                rw (new_slot, e, run) again,
                w₃,
                Stores-again t t₁ t₂ t₃ k c.val v c.stores copied s₃,
                λ _. absent,
              )
        ]

  pub new_slot_lem :
      (f : ℕ) (t : Table K V) (k : K) (v : V)
      → IsTable hash t
      → (t' : Table K V) × (created : Bool) × (new_slot null same hash (suc (suc f)) t k v
          ≡ some (t', created))
        × IsTable hash t'
        × Stores t t' k v
        × (created ≡ true → (i : ℕ) → i < t.size → (t.nodes i).key ≢ some k)
  unfolding new_slot
  new_slot_lem f t k v w = elim (place_lem null same same_iff hash t w k v) [
    | inl (t', e, kept) ↦
        (t', false, rw (new_slot, e) refl, kept.table, kept.stores, λ p. absurd (cc p))
    | inr (absent, inl (t', e, g)) ↦
        (t', true, rw (new_slot, e) refl, g.table, g.stores, λ _. absent)
    | inr (absent, inr (t', e, c)) ↦ Crowded-Inserted f t t' k v e c absent
  ]

-- In a well-formed table, `NewSlot` ends with a well-formed table, whatever rehash it takes. This
-- table answers the key with the new value, and every other key as before. It reports a new slot
-- only if the key was missing. The hypothesis on `same` says that it decides whether two keys are
-- equal.
pub new_slot-table_get :
    {K V : Type 0} (null : V) (same : K → K → Bool) (hash : K → ℕ) (real : V → V)
    → ((a b : K) → (same a b ≡ true) ↔ (a ≡ b))
    → (t : Table K V) (k : K) (v : V) → IsTable hash t
    → (t' : Table K V) × (created : Bool) × (new_slot null same hash depth t k v
        ≡ some (t', created))
      × IsTable hash t'
      × ((j : K)
          → table_get null same hash real t' (some j)
            ≡ (if same j k then some (real v) else table_get null same hash real t (some j)))
      × (created ≡ true → table_get null same hash real t (some k) ≡ none)
new_slot-table_get null same hash real same_iff t k v w =
    let (t', created, e, w', s, new) = new_slot_lem null same same_iff hash 1 t k v w in
    (
      t',
      created,
      e,
      w',
      stored_get null same same_iff hash real t t' w w' k v s,
      λ p. table_get-Lacks null same same_iff hash real t w k (new p),
    )
