-- ===== src/Table/Rehash.antt =====
-- `Rehash`: its sizes, and the entries of the new table.
use sqnim.Prelude.{
  ℕ, zero, suc, ◌+◌, ◌-◌, ◌*◌, ◌/◌, ◌≤◌, ◌<◌, ◌≡◌, ◌≢◌, ◌⊎◌, ◌↔◌, inl, inr, refl, true, Bool, none,
  some, arith, ltb, leb, if◌then◌else◌, Bool-cases, Option-cases, ◌&&◌,
}
use sqnim.Table.Count.{count_keys, count_bound}
use sqnim.Table.Insert.{IsFull, IsDense}
use sqnim.Table.Invariant.{IsTable, size_of}
use sqnim.Table.Place.{Grown, place_lem}
use sqnim.Table.{Table, alloc_nodes, rehash, rehash_size, min_size, new_slot}
use sqnim.Table.Copy.{
  Copied, IsPartial, size_of_min, alloc_nodes-IsTable, alloc_nodes-IsDense, alloc_nodes-Copied,
  reinsert_lem,
}

-- what a rehash needs of the old nodes
pub record Rehashable {K V : Type 0} (t : Table K V) : Type 0 where
  pub unique :
      (i j : ℕ) (k : K)
      → i < t.size
      → j < t.size
      → (t.nodes i).key ≡ some k
      → (t.nodes j).key ≡ some k
      → i ≡ j
  pub power : ℕ
  pub sized : t.size ≡ size_of power
  pub counted : count_keys t.size t.nodes ≤ t.used + 1

-- the new size is one of a table, with more nodes than keys
rehash_size_lem :
    (force : Bool) (u p n c : ℕ)
    → rehash_size force u (size_of p) ≡ some n
    → c ≤ u + 1
    → c ≤ size_of p
    → ((q : ℕ) × (n ≡ size_of q)) × (c < n)
unfolding rehash_size
rehash_size_lem force u zero n c e bound fits = elim (Bool-cases (leb 3 u)) [
  | inl up ↦ ((1, ground arith), ground arith)
  | inr stay ↦ ((0, ground arith), ground arith)
]
rehash_size_lem force u (suc p) n c e bound fits =
    let s : ℕ = size_of p in
    let min : 4 ≤ s = size_of_min p in
    elim (Bool-cases (leb (2 * s - 2 * s / 4) u)) [
      | inl up ↦ ((suc (suc p), ground arith), ground arith)
      | inr stay ↦ elim (Bool-cases (leb u (2 * s / 4) && ltb min_size (2 * s))) [
        | inl down ↦ ((p, ground arith), ground arith)
        | inr not_down ↦ ((suc p, ground arith), ground arith)
      ]
    ]

module _ {K V : Type 0} (null : V) (same : K → K → Bool)
    (same_iff : (a b : K) → (same a b ≡ true) ↔ (a ≡ b)) (hash : K → ℕ) where
  -- a new key finds its place in a dense table with two free nodes
  pub new_slot_dense :
      (f : ℕ) (t : Table K V) (k : K) (v : V)
      → IsTable hash t
      → IsDense t
      → t.used + 1 < t.size
      → ((i : ℕ) → i < t.size → (t.nodes i).key ≢ some k)
      → (t' : Table K V) × (new_slot null same hash (suc f) t k v ≡ some (t', true))
        × Grown hash t t' k v
  unfolding new_slot
  new_slot_dense f t k v w d room fresh = elim (place_lem null same same_iff hash t w k v) [
    | inl (t', e, kept) ↦ let (i, hi, ei) = kept.present in absurd (fresh i hi ei)
    | inr (absent, inl (t', e, g)) ↦ (t', rw (new_slot, e) refl, g)
    | inr (absent, inr (t', e, c)) ↦ absurd (omega (arith, c.dense d, room))
  ]

  pub IsTable-Rehashable : (t : Table K V) → IsTable hash t → Rehashable t
  IsTable-Rehashable t w = record {
    unique = w.keyed.unique;
    power = w.power;
    sized = w.sized;
    counted = omega (arith, w.counted);
  }

  pub IsFull-Rehashable : (t : Table K V) → IsFull t → Rehashable t
  IsFull-Rehashable t w = record {
    unique = w.unique;
    power = w.power;
    sized = w.sized;
    counted = omega (arith, w.counted);
  }

  old_size : (t : Table K V) → Rehashable t → (if ltb t.size 4 then 4 else t.size) ≡ t.size
  old_size t r = ground (arith, size_of_min r.power, r.sized)

  fresh_IsPartial :
      (t : Table K V) (r : Rehashable t) (q m : ℕ)
      → m ≡ size_of q
      → count_keys t.size t.nodes < m
      → IsPartial hash t.size t.nodes 0 (alloc_nodes null m)
  fresh_IsPartial t r q m sized more = record {
    table = rw sized (alloc_nodes-IsTable null hash q);
    dense = alloc_nodes-IsDense null hash m;
    copied = alloc_nodes-Copied null hash m t.nodes;
    used = refl;
    fits = more;
  }

  -- A rehash leaves the table, or gives a table with the same entries.
  pub rehash_lem :
      (f : ℕ) (force : Bool) (t : Table K V)
      → Rehashable t
      → ((rehash_size force t.used t.size ≡ none)
          × (rehash null (new_slot null same hash (suc f)) force t ≡ some t))
        ⊎ ((t' : Table K V) × (rehash null (new_slot null same hash (suc f)) force t ≡ some t')
            × IsTable hash t'
            × IsDense t'
            × Copied t.size t.nodes t')
  unfolding rehash
  rehash_lem f force t r = elim (Option-cases (rehash_size force t.used t.size)) [
    | inl e ↦ inl (e, rw (rehash, old_size t r, e) refl)
    | inr (m, e) ↦
        let ((q, sized), more) =
          rehash_size_lem force t.used r.power m (count_keys t.size t.nodes) (rw r.sized at e)
            r.counted (ground (arith, r.sized, count_bound t.size t.nodes)) in
        let (t', run, p, size) =
          reinsert_lem hash (new_slot null same hash (suc f)) (new_slot_dense f) t.size t.nodes
            r.unique t.size 0 (alloc_nodes null m) (omega arith)
            (fresh_IsPartial t r q m sized more) in
        inr (t', rw (rehash, old_size t r, e, old_size t r) run, p.table, p.dense, p.copied)
  ]

pub rehash_size_forced : (u n : ℕ) → rehash_size true u n ≢ none
unfolding rehash_size
rehash_size_forced u n e = ground arith
