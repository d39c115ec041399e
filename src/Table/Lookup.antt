-- ===== src/Table/Lookup.antt =====
-- What `Get` answers of a table with given entries.
use sqnim.Prelude.{
  ℕ, ◌<◌, ◌≡◌, ◌≢◌, ◌⊎◌, ◌↔◌, inl, inr, refl, sym, ◌∙◌, true, Bool, none, some, arith,
  if◌then◌else◌, Bool-cases, Option-cases,
}
use sqnim.Table.Insert.{Stores}
use sqnim.Table.Invariant.{IsTable, Entry}
use sqnim.Table.Place.{get_node_lem, present, absent}
use sqnim.Table.{Table, get_node, table_get}

module _ {K V : Type 0} (null : V) (same : K → K → Bool)
    (same_iff : (a b : K) → (same a b ≡ true) ↔ (a ≡ b)) (hash : K → ℕ) (real : V → V)
    (t : Table K V) (w : IsTable hash t) where
  abbrev Lacks : K → Type 0
  Lacks k = (i : ℕ) → i < t.size → (t.nodes i).key ≢ some k

  pub table_get-Entry :
      (k : K) (v : V)
      → Entry t.size t.nodes k v
      → table_get null same hash real t (some k) ≡ some (real v)
  unfolding table_get
  table_get-Entry k v (i, hi, e, x) =
      rw (table_get, get_node_lem null same same_iff hash t w i k hi e, x) refl

  pub table_get-Lacks : (k : K) → Lacks k → table_get null same hash real t (some k) ≡ none
  unfolding table_get
  table_get-Lacks k lacks = elim (Option-cases (get_node null same hash t (some k))) [
    | inl e ↦ rw (table_get, e) refl
    | inr (i, e) ↦
        let (hi, at) = present null same same_iff hash t w k i e in absurd (lacks i hi at)
  ]

  pub Entry-cases : (k : K) → Lacks k ⊎ ((v : V) × Entry t.size t.nodes k v)
  Entry-cases k = elim (Option-cases (get_node null same hash t (some k))) [
    | inl e ↦ inl (absent null same same_iff hash t w k e)
    | inr (i, e) ↦
        let (hi, at) = present null same same_iff hash t w k i e in
        inr ((t.nodes i).val, (i, hi, at, refl))
  ]

module _ {K V : Type 0} (null : V) (same : K → K → Bool)
    (same_iff : (a b : K) → (same a b ≡ true) ↔ (a ≡ b)) (hash : K → ℕ) (real : V → V)
    (t t' : Table K V) (w : IsTable hash t) (w' : IsTable hash t') where
  -- the answers for the keys that an operation leaves
  pub kept_get :
      (j : K)
      → ((v : V) → Entry t.size t.nodes j v → Entry t'.size t'.nodes j v)
      → ((v : V) → Entry t'.size t'.nodes j v → Entry t.size t.nodes j v)
      → table_get null same hash real t' (some j) ≡ table_get null same hash real t (some j)
  kept_get j to from = elim (Entry-cases null same same_iff hash real t w j) [
    | inr (v, x) ↦
        table_get-Entry null same same_iff hash real t' w' j v (to v x)
        ∙ sym (table_get-Entry null same same_iff hash real t w j v x)
    | inl lacks ↦
        table_get-Lacks null same same_iff hash real t' w' j
          (λ i hi e. let (p, hp, ep, vp) = from (t'.nodes i).val (i, hi, e, refl) in lacks p hp ep)
        ∙ sym (table_get-Lacks null same same_iff hash real t w j lacks)
  ]

  pub stored_get :
      (k : K) (v : V)
      → Stores t t' k v
      → (j : K)
      → table_get null same hash real t' (some j)
        ≡ (if same j k then some (real v) else table_get null same hash real t (some j))
  stored_get k v s j = elim (Bool-cases (same j k)) [
    | inl hit ↦
        let at : j ≡ k = (same_iff j k).0 hit in
        rw (hit, at) (table_get-Entry null same same_iff hash real t' w' k v s.new)
    | inr miss ↦
        let off : j ≢ k = λ e. ground (arith, (same_iff j k).1 e, miss) in
        rw miss (
          kept_get j (λ x y. s.old j x y off)
            (λ x y. elim (s.only j x y) [ inl (at, _) ↦ absurd (off at) | inr (_, z) ↦ z ]))
  ]
