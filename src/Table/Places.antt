-- ===== src/Table/Places.antt =====
-- The place that `NewSlot` makes for a key whose main position is taken.
use sqnim.Prelude.{ℕ, suc, ◌<◌, ◌≡◌, ◌≢◌, inl, inr, refl, none, some, List, arith}
use sqnim.Table.Chain.{first_mem}
use sqnim.Table.Keys.{Keyed, Place}
use sqnim.Table.Room.{
  chained, chained-Linked, moved, moved-Linked, mem-insert_after, mem-insert_after_new,
  mem-replace_first, mem-replace_first_new,
}
use sqnim.Table.{Node, chain_node, move_node}

module _ {K V : Type 0} {main : K → ℕ} {size : ℕ} {nodes : ℕ → Node K V} {c : ℕ → List ℕ} (n h : ℕ)
    (y : K) (l : Keyed main size (suc n) nodes c) (n_in : n < size) (n_free : (nodes n).key ≡ none)
    (n_end : (nodes n).next ≡ none) (h_in : h < size) (taken : (nodes h).key ≡ some y) where
  pub apart : h ≢ n
  apart e = ground arith

  -- no key has a free place without links for its main position
  no_key : (i : ℕ) (k : K) → i < size → (nodes i).key ≡ some k → main k ≢ n
  no_key i k hi e m = ground (arith, l.reached i k hi, l.linked.chain_end n)

  pub chained-Keyed :
      main y ≡ h
      → Keyed main size n (chain_node nodes h n) (chained n h l.linked n_in h_in apart n_end)
  chained-Keyed own = record {
    linked = chained-Linked n h l.linked n_in h_in apart n_end;
    reached = λ i k hi e.
        ground (arith, l.reached i k hi, no_key i k hi, mem-insert_after h n i (c (main k)));
    home = λ i k x hi e f. ground (arith, l.home i k x hi);
    foreign = λ i k hi e m. ground (arith, l.foreign i k hi);
    unique = λ i j k hi hj e f. ground (arith, l.unique i j k hi hj);
  }

  pub chained-Place :
      main y ≡ h
      → Place main size n (chain_node nodes h n) (chained n h l.linked n_in h_in apart n_end) h n
  chained-Place own = record {
    inside = n_in;
    free = ground arith;
    here = ground (arith, apart, first_mem l.linked h h_in, mem-insert_after_new h n (c h));
    owner = λ x e. ground arith;
    stands = inr (omega arith);
    alone = λ i x hi e m. ground (arith, no_key i x hi);
  }

  module _ (null : V) (o : ℕ) (other : main y ≢ h) (o_in : o < size)
      (before : (nodes o).next ≡ some h) where
    pub moved-Keyed :
        Keyed main size n
          (move_node null nodes o h n)
          (moved null n h o l.linked n_in h_in apart n_end o_in before)
    moved-Keyed = record {
      linked = moved-Linked null n h o l.linked n_in h_in apart n_end o_in before;
      reached = λ i k hi e. ground (
        arith,
        l.reached i k hi,
        l.reached h y h_in,
        l.home i k y hi,
        no_key i k hi,
        no_key h y h_in,
        mem-replace_first h n i (c (main k)),
        mem-replace_first_new h n (c (main k)),
      );
      home = λ i k x hi e f.
          ground (arith, l.home i k x hi, l.home h k x h_in, no_key i k hi, no_key h k h_in);
      foreign = λ i k hi e m. ground (arith, l.foreign i k hi);
      unique = λ i j k hi hj e f.
          ground (arith, l.unique i j k hi hj, l.unique h j k h_in hj, l.unique i h k hi h_in);
    }

    pub moved-Place :
        Place main size n
          (move_node null nodes o h n)
          (moved null n h o l.linked n_in h_in apart n_end o_in before)
          h
          h
    moved-Place = record {
      inside = h_in;
      free = ground arith;
      here = ground (arith, apart);
      owner = λ x e. ground (arith, apart);
      stands = inl refl;
      alone = λ i x hi e m. refl;
    }
