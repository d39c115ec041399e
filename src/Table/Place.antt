-- ===== src/Table/Place.antt =====
-- What the body of `NewSlot` up to the rehash does to a table.
use native.Mathlib.Nat.{mod-lt}
use sqnim.Prelude.{
  ℕ, ◌+◌, ◌%◌, ◌<◌, ◌≡◌, ◌≢◌, ◌⊎◌, ◌↔◌, inl, inr, refl, sym, ◌∙◌, true, Bool, none, some, arith,
  ◌==◌, Bool-cases, Option-cases,
}
use sqnim.Table.Chain.{find_complete, find_sound}
use sqnim.Table.Count.{count_congr}
use sqnim.Table.Insert.{
  Stores, IsFull, IsDense, filled, filled-IsTable, filled-Stores, filled-IsDense, named,
  crowded-IsFull, crowded-Stores, crowded-IsDense,
}
use sqnim.Table.Invariant.{IsTable, Room, make_room_lem, main_in, size_positive}
use sqnim.Table.Keys.{Keyed-kept}
use sqnim.Table.{
  Node, Table, Placed, found, placed, full, update, fill, correct_free, place, get_node,
}

-- the key has its value, in as many nodes as before
pub record Kept {K V : Type 0} (hash : K → ℕ) (t t' : Table K V) (k : K) (v : V) : Type 0 where
  pub table : IsTable hash t'
  pub present : (i : ℕ) × (i < t.size) × ((t.nodes i).key ≡ some k)
  pub stores : Stores t t' k v
  pub dense : IsDense t → IsDense t'
  pub size : t'.size ≡ t.size
  pub used : t'.used ≡ t.used

-- the new key has its value, in one node more
pub record Grown {K V : Type 0} (hash : K → ℕ) (t t' : Table K V) (k : K) (v : V) : Type 0 where
  pub table : IsTable hash t'
  pub stores : Stores t t' k v
  pub dense : IsDense t → IsDense t'
  pub size : t'.size ≡ t.size
  pub used : t'.used ≡ t.used + 1

-- the new key has a node and some value, and no node is left
pub record Crowded {K V : Type 0} (t t' : Table K V) (k : K) : Type 0 where
  pub table : IsFull t'
  pub val : V
  pub stores : Stores t t' k val
  pub dense : IsDense t → t.size ≡ t.used + 1

module _ {K V : Type 0} (null : V) (same : K → K → Bool)
    (same_iff : (a b : K) → (same a b ≡ true) ↔ (a ≡ b)) (hash : K → ℕ) (t : Table K V)
    (w : IsTable hash t) where
  pub present :
      (k : K) (i : ℕ)
      → get_node null same hash t (some k) ≡ some i
      → (i < t.size) × ((t.nodes i).key ≡ some k)
  unfolding get_node
  present k i e =
      find_sound same same_iff w.keyed.linked t.size (hash k % t.size) i (some k)
        (main_in null hash t w k) e

  -- a node that the null key matches has no key
  pub unused :
      (i : ℕ) → get_node null same hash t none ≡ some i → (i < t.size) × ((t.nodes i).key ≡ none)
  unfolding get_node
  unused i e =
      find_sound same same_iff w.keyed.linked t.size (0 % t.size) i none
        (mod-lt 0 (size_positive null hash t w)) e

  pub get_node_lem :
      (i : ℕ) (k : K)
      → i < t.size
      → (t.nodes i).key ≡ some k
      → get_node null same hash t (some k) ≡ some i
  unfolding get_node
  get_node_lem i k hi e =
      find_complete same same_iff w.keyed.linked t.size (hash k % t.size) i k
        (main_in null hash t w k)
        (omega (arith, w.keyed.linked.short (hash k % t.size) (main_in null hash t w k)))
        (w.keyed.reached i k hi e) e (λ j hj f. w.keyed.unique j i k hj hi f e)

  pub absent :
      (k : K)
      → get_node null same hash t (some k) ≡ none
      → (i : ℕ) → i < t.size
      → (t.nodes i).key ≢ some k
  absent k miss i hi e = ground (arith, get_node_lem i k hi e, miss)

  -- a node gets another value
  module _ (v : V) (i : ℕ) where
    abbrev pub revalued : Table K V
    revalued = record t { nodes = update i (record (t.nodes i) { val = v }) t.nodes }

    pub kept_key : (j : ℕ) → (revalued.nodes j).key ≡ (t.nodes j).key
    kept_key j = ground arith

    kept_next : (j : ℕ) → (revalued.nodes j).next ≡ (t.nodes j).next
    kept_next j = ground arith

    pub revalued-IsTable : IsTable hash revalued
    revalued-IsTable = record {
      chains = w.chains;
      keyed = Keyed-kept w.keyed revalued.nodes kept_next (λ j x e. sym (kept_key j) ∙ e);
      free_in = w.free_in;
      free_key = kept_key t.first_free ∙ w.free_key;
      free_next = kept_next t.first_free ∙ w.free_next;
      power = w.power;
      sized = w.sized;
      counted = count_congr t.size t.nodes revalued.nodes kept_key ∙ w.counted;
    }

  module _ (k : K) (v : V) where
    module _ (i : ℕ) (inside : i < t.size) (at : (t.nodes i).key ≡ some k) where
      revalued-Stores : Stores t (revalued v i) k v
      revalued-Stores = record {
        new = (i, inside, ground arith, ground arith);
        old = λ j x (n, hn, en, vn) ne. (n, hn, kept_key v i n ∙ en, ground arith);
        only = λ j x (n, hn, en, vn). elim (Bool-cases (n == i)) [
          | inl here ↦ inl (ground arith, ground arith)
          | inr off ↦
              let en' = sym (kept_key v i n) ∙ en in
              inr (ground (arith, w.keyed.unique n i k hn inside), (n, hn, en', ground arith))
        ];
      }

      pub revalued-Kept : Kept hash t (revalued v i) k v
      revalued-Kept = record {
        table = revalued-IsTable v i;
        present = (i, inside, at);
        stores = revalued-Stores;
        dense = λ d j hj e. ground (arith, d j hj);
        size = refl;
        used = refl;
      }

    abbrev New : Placed K V → Type 0
    New p =
        ((t' : Table K V) × (p ≡ placed t') × Grown hash t t' k v)
        ⊎ ((t' : Table K V) × (p ≡ full t') × Crowded t t' k)

    module _ {nodes : ℕ → Node K V} {mp : ℕ}
        (r : Room (λ k. hash k % t.size) t (hash k % t.size) nodes mp)
        (fresh : (i : ℕ) → i < t.size → (t.nodes i).key ≢ some k) where
      filled-Grown :
          (f : ℕ) (e : correct_free (named hash t w k v r fresh) t.first_free ≡ some f)
          → Grown hash t (filled hash t w k v r fresh f e) k v
      filled-Grown f e = record {
        table = filled-IsTable hash t w k v r fresh f e;
        stores = filled-Stores hash t w k v r fresh f e;
        dense = filled-IsDense hash t w k v r fresh f e;
        size = refl;
        used = refl;
      }

      fill_lem : New (fill t k v nodes mp)
      unfolding fill
      fill_lem = elim (Option-cases (correct_free (named hash t w k v r fresh) t.first_free)) [
        | inl e ↦ inr (
          _,
          rw (fill, e) refl,
          record {
            table = crowded-IsFull hash t w k v r fresh;
            val = (nodes mp).val;
            stores = crowded-Stores hash t w k v r fresh;
            dense = crowded-IsDense hash t w k v r fresh e;
          },
        )
        | inr (f, e) ↦ inl (_, rw (fill, e) refl, filled-Grown f e)
      ]

    pub place_lem :
        ((t' : Table K V) × (place null same hash t k v ≡ found t') × Kept hash t t' k v)
        ⊎ (((i : ℕ) → i < t.size → (t.nodes i).key ≢ some k) × New (place null same hash t k v))
    unfolding place
    place_lem = elim (Option-cases (get_node null same hash t (some k))) [
      | inr (i, e) ↦
          let (inside, at) = present k i e in inl (_, rw (place, e) refl, revalued-Kept i inside at)
      | inl e ↦
          let (nodes, mp, made, r) =
            make_room_lem null hash t w (hash k % t.size) (main_in null hash t w k) in
          inr (absent k e, rw (place, e, made) (fill_lem r (absent k e)))
    ]
