-- ===== src/Table/Count.antt =====
-- How many nodes hold a key, and the search for the next free one.
use sqnim.Prelude.{
  ℕ, zero, suc, ◌+◌, ◌≤◌, ◌<◌, ◌≡◌, ◌≢◌, refl, true, false, Option, none, some, arith,
}
use sqnim.Table.{Node, update, correct_free, is_free}

abbrev pub bit {ℓ} : {A : Type ℓ} → Option A → ℕ
bit none = 0
bit (some a) = 1

module _ {K V : Type 0} where
  abbrev pub count_keys : ℕ → (ℕ → Node K V) → ℕ
  count_keys zero nodes = 0
  count_keys (suc n) nodes = count_keys n nodes + bit (nodes n).key

  pub count_congr :
      (n : ℕ) (nodes nodes' : ℕ → Node K V)
      → ((i : ℕ) → (nodes' i).key ≡ (nodes i).key)
      → count_keys n nodes' ≡ count_keys n nodes
  count_congr zero nodes nodes' h = refl
  count_congr (suc n) nodes nodes' h = rw (h n, count_congr n nodes nodes' h)

  count_outside :
      (n i : ℕ) (a : Node K V) (nodes : ℕ → Node K V)
      → n ≤ i
      → count_keys n (update i a nodes) ≡ count_keys n nodes
  count_outside zero i a nodes h = refl
  count_outside (suc n) i a nodes h = ground (arith, count_outside n i a nodes)

  pub count_update :
      (n i : ℕ) (a : Node K V) (nodes : ℕ → Node K V)
      → i < n
      → count_keys n (update i a nodes) + bit (nodes i).key ≡ count_keys n nodes + bit a.key
  count_update zero i a nodes h = absurd (omega arith)
  count_update (suc n) i a nodes h =
      ground (arith, count_update n i a nodes, count_outside n i a nodes)

  pub count_bound : (n : ℕ) (nodes : ℕ → Node K V) → count_keys n nodes ≤ n
  count_bound zero nodes = omega arith
  count_bound (suc n) nodes = ground (arith, count_bound n nodes)

  pub count_full :
      (n : ℕ) (nodes : ℕ → Node K V)
      → ((i : ℕ) → i < n → (nodes i).key ≢ none)
      → count_keys n nodes ≡ n
  count_full zero nodes h = refl
  count_full (suc n) nodes h = ground (arith, count_full n nodes (λ i hi. h i (omega arith)), h n)

  pub count_cleared :
      (n : ℕ) (nodes : ℕ → Node K V) → ((i : ℕ) → (nodes i).key ≡ none) → count_keys n nodes ≡ 0
  count_cleared zero nodes h = refl
  count_cleared (suc n) nodes h = ground (arith, count_cleared n nodes h, h n)

  -- the node found is free, and none between it and the start is
  pub correct_free-some :
      (nodes : ℕ → Node K V) (from f : ℕ)
      → correct_free nodes from ≡ some f
      → (f ≤ from) × (is_free (nodes f) ≡ true)
  unfolding correct_free
  correct_free-some nodes zero f h = ground arith
  correct_free-some nodes (suc n) f h = ground (arith, correct_free-some nodes n f)

  pub correct_free_above :
      (nodes : ℕ → Node K V) (from f i : ℕ)
      → correct_free nodes from ≡ some f
      → f < i
      → i ≤ from
      → is_free (nodes i) ≡ false
  unfolding correct_free
  correct_free_above nodes zero f i h lt le = absurd (omega arith)
  correct_free_above nodes (suc n) f i h lt le = ground (arith, correct_free_above nodes n f i)

  pub correct_free-none :
      (nodes : ℕ → Node K V) (from i : ℕ)
      → correct_free nodes from ≡ none
      → i ≤ from
      → is_free (nodes i) ≡ false
  unfolding correct_free
  correct_free-none nodes zero i h le = ground arith
  correct_free-none nodes (suc n) i h le = ground (arith, correct_free-none nodes n i)

  pub is_free-none : (n : Node K V) → is_free n ≡ true → (n.key ≡ none) × (n.next ≡ none)
  is_free-none n h = ground arith
