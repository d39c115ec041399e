-- ===== src/Table/Copy.antt =====
-- The loop of `Rehash`: it copies the entries of the old nodes into a fresh table.
use sqnim.Prelude.{
  ℕ, zero, suc, ◌+◌, ◌-◌, ◌%◌, ◌≤◌, ◌<◌, ◌≡◌, ◌≢◌, inl, inr, refl, sym, ◌∙◌, true, Bool, Option,
  none, some, [], ◌∷◌, arith, ◌==◌, Bool-cases, Option-cases,
}
use sqnim.Table.Count.{count_cleared, count_keys}
use sqnim.Table.Insert.{Stores, IsDense}
use sqnim.Table.Invariant.{IsTable, Entry, size_of}
use sqnim.Table.Keys.{Keyed}
use sqnim.Table.Place.{Grown}
use sqnim.Table.{Node, Table, alloc_nodes, free_node, reinsert}

-- the table has the entries of the first `n` nodes
pub record Copied {K V : Type 0} (n : ℕ) (old : ℕ → Node K V) (t : Table K V) : Type 0 where
  pub from : (k : K) (v : V) → Entry t.size t.nodes k v → Entry n old k v
  pub to : (k : K) (v : V) → Entry n old k v → Entry t.size t.nodes k v

pub size_of_min : (p : ℕ) → 4 ≤ size_of p
size_of_min zero = omega arith
size_of_min (suc p) = omega (arith, size_of_min p)

module _ {K V : Type 0} (null : V) (hash : K → ℕ) where
  fresh-Keyed :
      (n lo : ℕ)
      → lo ≤ n
      → Keyed {K = K} {V = V} (λ k. hash k % n) n lo (λ i. free_node null) (λ i. i ∷ [])
  fresh-Keyed n lo h = record {
    linked = record {
      next_in = λ i j hi e. absurd (cc e);
      next_injective = λ i j k hi hj e. absurd (cc e);
      chain_end = λ i hi e. refl;
      chain_link = λ i j hi e. absurd (cc e);
      short = λ i hi. omega arith;
    };
    reached = λ i k hi e. absurd (cc e);
    home = λ i k x hi e. absurd (cc e);
    foreign = λ i k hi e. absurd (cc e);
    unique = λ i j k hi hj e. absurd (cc e);
  }

  pub alloc_nodes-IsTable : (p : ℕ) → IsTable {K = K} hash (alloc_nodes null (size_of p))
  alloc_nodes-IsTable p = record {
    chains = λ i. i ∷ [];
    keyed = fresh-Keyed (size_of p) (suc (size_of p - 1)) (omega (arith, size_of_min p));
    free_in = omega (arith, size_of_min p);
    free_key = refl;
    free_next = refl;
    power = p;
    sized = refl;
    counted = count_cleared (size_of p) (λ i. free_node null) (λ i. refl);
  }

  pub alloc_nodes-IsDense : (n : ℕ) → IsDense {K = K} (alloc_nodes null n)
  alloc_nodes-IsDense n i hi e = (refl, omega arith)

  pub alloc_nodes-Copied : (n : ℕ) (old : ℕ → Node K V) → Copied 0 old (alloc_nodes null n)
  alloc_nodes-Copied n old = record {
    from = λ k v (i, hi, e, w). absurd (cc e);
    to = λ k v (i, hi, e, w). absurd (omega arith);
  }

module _ {K V : Type 0} where
  count_mono : (i n : ℕ) (nodes : ℕ → Node K V) → i ≤ n → count_keys i nodes ≤ count_keys n nodes
  count_mono i zero nodes h = ground arith
  count_mono i (suc n) nodes h = elim (Bool-cases (i == suc n)) [
    | inl at ↦ ground arith
    | inr below ↦ ground (arith, count_mono i n nodes)
  ]

  pub Copied-jump :
      (i j : ℕ) (old : ℕ → Node K V) (t : Table K V)
      → i ≤ j
      → ((p : ℕ) → i ≤ p → p < j → (old p).key ≡ none)
      → Copied i old t
      → Copied j old t
  Copied-jump i j old t le bare c = record {
    from = λ k v x. let (p, hp, ep, vp) = c.from k v x in (p, omega (arith, hp, le), ep, vp);
    to = λ k v (p, hp, ep, vp). c.to k v (p, ground (arith, bare p, hp, ep), ep, vp);
  }

  pub Copied-add :
      (i n : ℕ) (old : ℕ → Node K V) (t t' : Table K V) (k : K)
      → i < n
      → ((x y : ℕ) (k : K) → x < n → y < n → (old x).key ≡ some k → (old y).key ≡ some k → x ≡ y)
      → (old i).key ≡ some k
      → Copied i old t
      → Stores t t' k (old i).val
      → Copied (suc i) old t'
  Copied-add i n old t t' k below unique e c s = record {
    from = λ j v x. elim (s.only j v x) [
      | inl (at, same_val) ↦ (i, omega arith, rw at e, sym same_val)
      | inr (off, y) ↦ let (p, hp, ep, vp) = c.from j v y in (p, omega (arith, hp), ep, vp)
    ];
    to = λ j v (p, hp, ep, vp). elim (Bool-cases (p == i)) [
      | inl at ↦ let (q, hq, eq, vq) = s.new in (q, hq, ground arith, ground arith)
      | inr past ↦
          s.old j v (c.to j v (p, ground arith, ep, vp)) (λ q. ground (arith, unique p i k, q))
    ];
  }

-- the table holds the keys of the first nodes, and has a node more than there are keys
pub record IsPartial {K V : Type 0} (hash : K → ℕ) (n : ℕ) (old : ℕ → Node K V) (i : ℕ)
    (t : Table K V) : Type 0 where
  pub table : IsTable hash t
  pub dense : IsDense t
  pub copied : Copied i old t
  pub used : t.used ≡ count_keys i old
  pub fits : count_keys n old < t.size

module _ {K V : Type 0} (hash : K → ℕ) (insert : Table K V → K → V → Option (Table K V × Bool))
    (insert_lem : (t : Table K V) (k : K) (v : V)
      → IsTable hash t
      → IsDense t
      → t.used + 1 < t.size
      → ((i : ℕ) → i < t.size → (t.nodes i).key ≢ some k)
      → (t' : Table K V) × (insert t k v ≡ some (t', true)) × Grown hash t t' k v)
    (n : ℕ) (old : ℕ → Node K V)
    (unique : (x y : ℕ) (k : K)
      → x < n
      → y < n
      → (old x).key ≡ some k
      → (old y).key ≡ some k
      → x ≡ y) where
  fresh_old :
      (i : ℕ) (t : Table K V) (k : K)
      → i < n
      → (old i).key ≡ some k
      → Copied i old t
      → (j : ℕ) → j < t.size
      → (t.nodes j).key ≢ some k
  fresh_old i t k below e c j hj f =
      let (p, hp, ep, vp) = c.from k (t.nodes j).val (j, hj, f, refl) in
      ground (arith, hp, unique p i k, ep)

  pub reinsert_lem :
      (c i : ℕ) (t : Table K V)
      → i + c ≡ n
      → IsPartial hash n old i t
      → (t' : Table K V) × (reinsert insert c i old t ≡ some t')
        × IsPartial hash n old n t'
        × (t'.size ≡ t.size)
  unfolding reinsert
  reinsert_lem zero i t at p = (
    t,
    refl,
    record {
      table = p.table;
      dense = p.dense;
      copied = rw (← at) (ground arith);
      used = ground (arith, p.used);
      fits = p.fits;
    },
    refl,
  )
  reinsert_lem (suc c) i t at p = elim (Option-cases (old i).key) [
    | inl e ↦
        let (t', run, q, size) = reinsert_lem c (suc i) t (omega arith) (record {
          table = p.table;
          dense = p.dense;
          copied =
              Copied-jump i (suc i) old t (omega arith) (λ q hq hp. ground (arith, hq, hp, e))
                p.copied;
          used = ground (arith, p.used);
          fits = p.fits;
        }) in
        (t', rw (reinsert, e) run, q, size)
    | inr (k, e) ↦
        let below : i < n = omega arith in
        let more : count_keys i old + 1 ≤ count_keys n old =
          ground (arith, count_mono (suc i) n old) in
        let (t₁, one, g) =
          insert_lem t k (old i).val p.table p.dense (ground (arith, p.used, p.fits))
            (fresh_old i t k below e p.copied) in
        let (t', run, q, size) = reinsert_lem c (suc i) t₁ (omega arith) (record {
          table = g.table;
          dense = g.dense p.dense;
          copied = Copied-add i n old t t₁ k below unique e p.copied g.stores;
          used = ground (arith, p.used, g.used);
          fits = omega (arith, p.fits, g.size);
        }) in
        (t', rw (reinsert, e, one) run, q, size ∙ g.size)
  ]
