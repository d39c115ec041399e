-- ===== src/Table/Erase.antt =====
-- `Set`, `Remove` and `Clear` as operations on a finite map.
use sqnim.Prelude.{
  ℕ, ◌-◌, ◌<◌, ◌≡◌, ◌≢◌, ◌⊎◌, ◌↔◌, inl, inr, refl, ◌∙◌, true, false, Bool, Option, none, some,
  arith, if◌then◌else◌, Bool-cases, Option-cases,
}
use sqnim.Table.Count.{count_cleared, count_update}
use sqnim.Table.Invariant.{IsTable}
use sqnim.Table.Keys.{Keyed-kept}
use sqnim.Table.Lookup.{stored_get, kept_get, table_get-Lacks}
use sqnim.Table.Place.{revalued, revalued-IsTable, revalued-Kept, present, unused, absent}
use sqnim.Table.Rehash.{Rehashable, rehash_lem, rehash_size_forced, IsTable-Rehashable}
use sqnim.Table.{
  Table, table_get, table_set, table_remove, table_clear, clear_nodes, new_slot, rehash, depth,
  update, get_node, same_key,
}

module _ {K V : Type 0} (null : V) (same : K → K → Bool)
    (same_iff : (a b : K) → (same a b ≡ true) ↔ (a ≡ b)) (hash : K → ℕ) (real : V → V)
    (t : Table K V) (w : IsTable hash t) where
  module _ (k : K) (i : ℕ) (inside : i < t.size) (at : (t.nodes i).key ≡ some k) where
    abbrev erased : Table K V
    erased = record t {
      nodes = update i (record (t.nodes i) { key = none; val = null }) t.nodes;
      used = t.used - 1;
    }

    erased_key : (j : ℕ) (x : K) → (erased.nodes j).key ≡ some x → (t.nodes j).key ≡ some x
    erased_key j x e = ground arith

    erased_next : (j : ℕ) → (erased.nodes j).next ≡ (t.nodes j).next
    erased_next j = ground arith

    erased-IsTable : IsTable hash erased
    erased-IsTable = record {
      chains = w.chains;
      keyed = Keyed-kept w.keyed erased.nodes erased_next erased_key;
      free_in = w.free_in;
      free_key = ground (arith, w.free_key);
      free_next = erased_next t.first_free ∙ w.free_next;
      power = w.power;
      sized = w.sized;
      counted = ground (
        arith,
        count_update t.size i (record (t.nodes i) { key = none; val = null }) t.nodes inside,
        w.counted,
      );
    }

    erased_get :
        (j : K)
        → table_get null same hash real erased (some j)
          ≡ (if same j k then none else table_get null same hash real t (some j))
    erased_get j = elim (Bool-cases (same j k)) [
      | inl hit ↦ rw hit (
          table_get-Lacks null same same_iff hash real erased erased-IsTable j
            (λ p hp e. ground (arith, (same_iff j k).0 hit, w.keyed.unique p i k hp inside)))
      | inr miss ↦
          let off : j ≢ k = λ e. ground (arith, (same_iff j k).1 e, miss) in
          rw miss (
            kept_get null same same_iff hash real t erased w erased-IsTable j
              (λ v (p, hp, e, x). (p, hp, ground arith, ground arith))
              (λ v (p, hp, e, x). (p, hp, ground arith, ground arith)))
    ]

  missing_get :
      (k : K)
      → get_node null same hash t (some k) ≡ none
      → (j : K)
      → table_get null same hash real t (some j)
        ≡ (if same j k then none else table_get null same hash real t (some j))
  missing_get k e j = elim (Bool-cases (same j k)) [
    | inl hit ↦
        rw (hit, (same_iff j k).0 hit)
          (table_get-Lacks null same same_iff hash real t w k
            (absent null same same_iff hash t w k e))
    | inr miss ↦ rw miss refl
  ]

  -- a rehash that may leave the table answers every key as before
  rehash-table_get :
      (force : Bool)
      → (t' : Table K V) × (rehash null (new_slot null same hash depth) force t ≡ some t')
        × IsTable hash t'
        × ((j : K)
            → table_get null same hash real t' (some j) ≡ table_get null same hash real t (some j))
  rehash-table_get force =
      elim (rehash_lem null same same_iff hash 2 force t
        (IsTable-Rehashable null same same_iff hash t w)) [
          | inl (_, e) ↦ (t, e, w, λ j. refl)
          | inr (t', e, w', _, c) ↦ (
            t',
            e,
            w',
            λ j. kept_get null same same_iff hash real t t' w w' j (c.to j) (c.from j),
          )
        ]

module _ {K V : Type 0} (null : V) (same : K → K → Bool)
    (same_iff : (a b : K) → (same a b ≡ true) ↔ (a ≡ b)) (hash : K → ℕ) (real : V → V) where
  -- clearing a table leaves no key, so the rehash copies none
  cleared-Rehashable :
      (t : Table K V) → IsTable hash t → Rehashable (record (clear_nodes null t) { used = 0 })
  cleared-Rehashable t w = record {
    unique = λ i j k hi hj e. absurd (cc e);
    power = w.power;
    sized = w.sized;
    counted = ground (arith, count_cleared t.size (clear_nodes null t).nodes (λ i. refl));
  }

-- a value in an unused node changes no answer
bare_get :
    {K V : Type 0} (null : V) (same : K → K → Bool)
    (same_iff : (a b : K) → (same a b ≡ true) ↔ (a ≡ b)) (hash : K → ℕ) (real : V → V)
    (t : Table K V) (w : IsTable hash t) (v : V) (i : ℕ)
    → (t.nodes i).key ≡ none
    → (j : K)
    → table_get null same hash real (revalued null same same_iff hash t w v i) (some j)
      ≡ table_get null same hash real t (some j)
bare_get null same same_iff hash real t w v i bare j =
    kept_get null same same_iff hash real t _ w (revalued-IsTable null same same_iff hash t w v i) j
      (λ x (n, hn, e, y). (n, hn, ground arith, ground arith))
      (λ x (n, hn, e, y). (n, hn, ground arith, ground arith))

-- In a well-formed table, `Set` either fails, and then `Get` does not answer the key, or gives a
-- well-formed table. If so, either the key is there, or it is the null key and some node is unused.
-- The new table answers a key that is not null with the new value, and
-- all other keys as before.
pub table_set-table_get :
    {K V : Type 0} (null : V) (same : K → K → Bool) (hash : K → ℕ) (real : V → V)
    → ((a b : K) → (same a b ≡ true) ↔ (a ≡ b))
    → (t : Table K V) (key : Option K) (v : V) → IsTable hash t
    → ((table_set null same hash t key v ≡ none) × (table_get null same hash real t key ≡ none))
      ⊎ ((t' : Table K V) × (table_set null same hash t key v ≡ some t')
          × IsTable hash t'
          × (((key ≡ none) × (i : ℕ) × (i < t.size) × ((t.nodes i).key ≡ none))
              ⊎ ((u : V) × (table_get null same hash real t key ≡ some u)))
          × ((j : K)
              → table_get null same hash real t' (some j) ≡ (
                  if same_key same (some j) key
                  then some (real v)
                  else table_get null same hash real t (some j))))
unfolding table_set table_get
table_set-table_get null same hash real same_iff t (some k) v w =
    elim (Option-cases (get_node null same hash t (some k))) [
      | inl e ↦ inl (rw (table_set, e) refl, rw (table_get, e) refl)
      | inr (i, e) ↦
          let (hi, at) = present null same same_iff hash t w k i e in
          let kept = revalued-Kept null same same_iff hash t w k v i hi at in
          inr (
            _,
            rw (table_set, e) refl,
            kept.table,
            inr (real (t.nodes i).val, rw (table_get, e) refl),
            stored_get null same same_iff hash real t _ w kept.table k v kept.stores,
          )
    ]
table_set-table_get null same hash real same_iff t none v w =
    elim (Option-cases (get_node null same hash t none)) [
      | inl e ↦ inl (rw (table_set, e) refl, refl)
      | inr (i, e) ↦
          let (hi, bare) = unused null same same_iff hash t w i e in
          inr (
            _,
            rw (table_set, e) refl,
            revalued-IsTable null same same_iff hash t w v i,
            inl (refl, i, hi, bare),
            bare_get null same same_iff hash real t w v i bare,
          )
    ]

-- In a well-formed table, `Remove` ends with a well-formed table, whether it shrinks or not. This
-- table does not have the key, and answers every other key as before.
pub table_remove-table_get :
    {K V : Type 0} (null : V) (same : K → K → Bool) (hash : K → ℕ) (real : V → V)
    → ((a b : K) → (same a b ≡ true) ↔ (a ≡ b))
    → (t : Table K V) (k : K) → IsTable hash t
    → (t' : Table K V) × (table_remove null same hash t k ≡ some t')
      × IsTable hash t'
      × ((j : K)
          → table_get null same hash real t' (some j)
            ≡ (if same j k then none else table_get null same hash real t (some j)))
unfolding table_remove
table_remove-table_get null same hash real same_iff t k w =
    elim (Option-cases (get_node null same hash t (some k))) [
      | inl e ↦ (t, rw (table_remove, e) refl, w, missing_get null same same_iff hash real t w k e)
      | inr (i, e) ↦
          let (hi, at) = present null same same_iff hash t w k i e in
          let gone = erased_get null same same_iff hash real t w k i hi at in
          let (t', run, w', kept) =
            rehash-table_get null same same_iff hash real _
              (erased-IsTable null same same_iff hash real t w k i hi at) false in
          (t', rw (table_remove, e) run, w', λ j. kept j ∙ gone j)
    ]

-- `Clear` ends with a well-formed table that has no key.
pub table_clear-table_get :
    {K V : Type 0} (null : V) (same : K → K → Bool) (hash : K → ℕ) (real : V → V)
    → ((a b : K) → (same a b ≡ true) ↔ (a ≡ b))
    → (t : Table K V) → IsTable hash t
    → (t' : Table K V) × (table_clear null same hash t ≡ some t')
      × IsTable hash t'
      × ((j : K) → table_get null same hash real t' (some j) ≡ none)
unfolding table_clear
table_clear-table_get null same hash real same_iff t w =
    let cleared = record (clear_nodes null t) { used = 0 } in
    elim (rehash_lem null same same_iff hash 2 true cleared
      (cleared-Rehashable null same same_iff hash real t w)) [
        | inl (stays, _) ↦ absurd (rehash_size_forced 0 t.size stays)
        | inr (t', e, w', _, c) ↦ (
          t',
          e,
          w',
          λ j.
              table_get-Lacks null same same_iff hash real t' w' j (λ i hi at.
                let (p, hp, e, x) = c.from j (t'.nodes i).val (i, hi, at, refl) in cc e),
        )
      ]
