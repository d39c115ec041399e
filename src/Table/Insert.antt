-- ===== src/Table/Insert.antt =====
-- What filling the place for a new key does to a table.
use sqnim.Prelude.{
  ℕ, suc, ◌+◌, ◌%◌, ◌≤◌, ◌<◌, ◌≡◌, ◌≢◌, ◌⊎◌, inl, inr, refl, sym, ◌∙◌, none, some, arith, ◌==◌,
  Bool-cases,
}
use sqnim.Table.Count.{
  count_keys, count_update, count_full, correct_free-some, correct_free_above, correct_free-none,
  is_free-none,
}
use sqnim.Table.Invariant.{IsTable, Entry, Room, size_of}
use sqnim.Table.Keys.{Keyed, Keyed-add, Keyed-kept, Keyed-lower}
use sqnim.Table.{Node, Table, update, correct_free}

-- The second table has the entries of the first, with `k` for `v`.
pub record Stores {K V : Type 0} (t t' : Table K V) (k : K) (v : V) : Type 0 where
  pub new : Entry t'.size t'.nodes k v
  pub old : (j : K) (x : V) → Entry t.size t.nodes j x → j ≢ k → Entry t'.size t'.nodes j x
  pub only :
      (j : K) (x : V)
      → Entry t'.size t'.nodes j x
      → ((j ≡ k) × (x ≡ v)) ⊎ ((j ≢ k) × Entry t.size t.nodes j x)

-- a table whose free places are used up, in the middle of an insertion
pub record IsFull {K V : Type 0} (t : Table K V) : Type 0 where
  pub unique :
      (i j : ℕ) (k : K)
      → i < t.size
      → j < t.size
      → (t.nodes i).key ≡ some k
      → (t.nodes j).key ≡ some k
      → i ≡ j
  pub power : ℕ
  pub sized : t.size ≡ size_of power
  pub counted : count_keys t.size t.nodes ≡ t.used + 1

-- nothing has been removed: only nodes up to the free place have no key, and no link
abbrev pub IsDense : {K V : Type 0} → Table K V → Type 0
IsDense t =
    (i : ℕ) → i < t.size → (t.nodes i).key ≡ none → ((t.nodes i).next ≡ none) × (i ≤ t.first_free)

module _ {K V : Type 0} (hash : K → ℕ) (t : Table K V) (w : IsTable hash t) (k : K) (v : V)
    {nodes : ℕ → Node K V} {mp : ℕ} (r : Room (λ k. hash k % t.size) t (hash k % t.size) nodes mp)
    (fresh : (i : ℕ) → i < t.size → (t.nodes i).key ≢ some k) where
  still_fresh : (i : ℕ) → i < t.size → (nodes i).key ≢ some k
  still_fresh i hi e =
      let (j, hj, f, x) = r.moves.from k (nodes i).val (i, hi, e, refl) in fresh j hj f

  abbrev pub named : ℕ → Node K V
  named = update mp (record (nodes mp) { key = some k }) nodes

  abbrev stored : ℕ → Node K V
  stored = update mp (record (named mp) { val = v }) named

  named-Keyed : Keyed (λ k. hash k % t.size) t.size r.lo named r.chains
  named-Keyed = Keyed-add r.keyed k r.place still_fresh

  stored-Keyed : Keyed (λ k. hash k % t.size) t.size r.lo stored r.chains
  stored-Keyed = Keyed-kept named-Keyed stored (λ i. ground arith) (λ i x e. ground arith)

  named_count : count_keys t.size named ≡ t.used + 1
  named_count = ground (
    arith,
    count_update t.size mp (record (nodes mp) { key = some k }) nodes r.place.inside,
    r.place.free,
    r.moves.count,
    w.counted,
  )

  stored_count : count_keys t.size stored ≡ t.used + 1
  stored_count = ground (
    arith,
    count_update t.size mp (record (named mp) { val = v }) named r.place.inside,
    named_count,
  )

  -- a node array with the key in the place, and all else as it was
  module _ (nodes' : ℕ → Node K V) (x : V) (at_key : (nodes' mp).key ≡ some k)
      (at_val : (nodes' mp).val ≡ x) (off_key : (i : ℕ) → i ≢ mp → (nodes' i).key ≡ (nodes i).key)
      (off_val : (i : ℕ) → i ≢ mp → (nodes' i).val ≡ (nodes i).val) where
    taken_old : (j : K) (y : V) → Entry t.size t.nodes j y → j ≢ k → Entry t.size nodes' j y
    taken_old j y e ne =
        let (i, hi, ei, vi) = r.moves.to j y e in
        let off : i ≢ mp = λ p. ground (arith, r.place.free, p) in
        (i, hi, off_key i off ∙ ei, off_val i off ∙ vi)

    taken_only :
        (j : K) (y : V)
        → Entry t.size nodes' j y
        → ((j ≡ k) × (y ≡ x)) ⊎ ((j ≢ k) × Entry t.size t.nodes j y)
    taken_only j y (i, hi, ei, vi) = elim (Bool-cases (i == mp)) [
      | inl at ↦ inl (ground arith, ground arith)
      | inr out ↦
          let off : i ≢ mp = ground arith in
          let ei' : (nodes i).key ≡ some j = sym (off_key i off) ∙ ei in
          let vi' : (nodes i).val ≡ y = sym (off_val i off) ∙ vi in
          inr (λ e. still_fresh i hi (rw e at ei'), r.moves.from j y (i, hi, ei', vi'))
    ]

    pub taken-Stores :
        (f u : ℕ)
        → Stores t (record { nodes = nodes'; size = t.size; first_free = f; used = u }) k x
    taken-Stores f u = record {
      new = (mp, r.place.inside, at_key, at_val);
      old = taken_old;
      only = taken_only;
    }

  still_bare :
      IsDense t
      → (i : ℕ) → i < t.size
      → i ≢ mp
      → (nodes i).key ≡ none
      → ((nodes i).next ≡ none) × (i ≤ t.first_free)
  still_bare d i hi off e =
      let (e', links) = r.moves.bare i hi off e in
      let (no_next, low) = d i hi e' in (links no_next, low)

  module _ (f : ℕ) (found : correct_free named t.first_free ≡ some f) where
    abbrev pub filled : Table K V
    filled = record t { nodes = stored; first_free = f; used = t.used + 1 }

    free_at : (f ≤ t.first_free) × ((named f).key ≡ none) × ((named f).next ≡ none)
    free_at =
        let (le, free) = correct_free-some named t.first_free f found in
        let (nokey, nonext) = is_free-none (named f) free in (le, nokey, nonext)

    low_enough : suc f ≤ r.lo
    low_enough = ground (arith, free_at, r.low)

    pub filled-IsTable : IsTable hash filled
    filled-IsTable = record {
      chains = r.chains;
      keyed = Keyed-lower (suc f) stored-Keyed low_enough;
      free_in = omega (arith, free_at.0, w.free_in);
      free_key = ground (arith, free_at);
      free_next = ground (arith, free_at);
      power = w.power;
      sized = w.sized;
      counted = stored_count;
    }

    pub filled-Stores : Stores t filled k v
    filled-Stores =
        taken-Stores stored v (ground arith) (ground arith) (λ i ne. ground arith)
          (λ i ne. ground arith) f (t.used + 1)

    pub filled-IsDense : IsDense t → IsDense filled
    filled-IsDense d i hi e =
        ground (arith, still_bare d i hi, correct_free_above named t.first_free f i found)

  pub crowded-IsFull : IsFull (record t { nodes = named; first_free = 0 })
  crowded-IsFull = record {
    unique = named-Keyed.unique;
    power = w.power;
    sized = w.sized;
    counted = named_count;
  }

  pub crowded-Stores : Stores t (record t { nodes = named; first_free = 0 }) k (nodes mp).val
  crowded-Stores =
      taken-Stores named (nodes mp).val (ground arith) (ground arith) (λ i ne. ground arith)
        (λ i ne. ground arith) 0 t.used

  -- a dense table has no free place left only when all nodes are used
  pub crowded-IsDense : correct_free named t.first_free ≡ none → IsDense t → t.size ≡ t.used + 1
  crowded-IsDense none_left d =
      let taken = count_full t.size named (λ i hi e.
        ground (arith, still_bare d i hi, correct_free-none named t.first_free i none_left)) in
      sym taken ∙ named_count
