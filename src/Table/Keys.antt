-- ===== src/Table/Keys.antt =====
-- Where the keys stand: each on the chain of its main position, which a key of another main
-- position does not hold.
use sqnim.Prelude.{ℕ, ◌≤◌, ◌<◌, ◌≡◌, ◌≢◌, ◌⊎◌, sym, ◌∙◌, true, none, some, List, arith}
use sqnim.Table.{Node, update}
use sqnim.Table.Chain.{mem, Linked}

-- `main k` is the main position of a key
pub record Keyed {K V : Type 0} (main : K → ℕ) (size lo : ℕ) (nodes : ℕ → Node K V) (c : ℕ → List ℕ)
    : Type 0 where
  pub linked : Linked size lo nodes c
  pub reached : (i : ℕ) (k : K) → i < size → (nodes i).key ≡ some k → mem i (c (main k)) ≡ true
  pub home :
      (i : ℕ) (k x : K)
      → i < size
      → (nodes i).key ≡ some k
      → (nodes (main k)).key ≡ some x
      → main x ≡ main k
  pub foreign : (i : ℕ) (k : K) → i < size → (nodes i).key ≡ some k → main k ≢ i → lo ≤ i
  pub unique :
      (i j : ℕ) (k : K)
      → i < size
      → j < size
      → (nodes i).key ≡ some k
      → (nodes j).key ≡ some k
      → i ≡ j

module _ {K V : Type 0} {size : ℕ} where
  pub Linked-lower :
      {lo : ℕ} {nodes : ℕ → Node K V} {c : ℕ → List ℕ} (lo' : ℕ)
      → Linked size lo nodes c
      → lo' ≤ lo
      → Linked size lo' nodes c
  Linked-lower lo' l h = record {
    next_in = λ i j hi e. omega (arith, (l.next_in i j hi e).0, (l.next_in i j hi e).1);
    next_injective = l.next_injective;
    chain_end = l.chain_end;
    chain_link = l.chain_link;
    short = λ i hi. omega (arith, l.short i hi);
  }

module _ {K V : Type 0} {main : K → ℕ} {size : ℕ} where
  pub Keyed-lower :
      {lo : ℕ} {nodes : ℕ → Node K V} {c : ℕ → List ℕ} (lo' : ℕ)
      → Keyed main size lo nodes c
      → lo' ≤ lo
      → Keyed main size lo' nodes c
  Keyed-lower lo' l h = record {
    linked = Linked-lower lo' l.linked h;
    reached = l.reached;
    home = l.home;
    foreign = λ i k hi e n. omega (arith, l.foreign i k hi e n);
    unique = l.unique;
  }

module _ {K V : Type 0} {main : K → ℕ} {size lo : ℕ} {nodes : ℕ → Node K V} {c : ℕ → List ℕ}
    (l : Keyed main size lo nodes c) (nodes' : ℕ → Node K V)
    (same_next : (i : ℕ) → (nodes' i).next ≡ (nodes i).next)
    (kept : (i : ℕ) (k : K) → (nodes' i).key ≡ some k → (nodes i).key ≡ some k) where
  same_links : Linked size lo nodes' c
  same_links = record {
    next_in = λ i j hi e. l.linked.next_in i j hi (sym (same_next i) ∙ e);
    next_injective = λ i j k hi hj ei ej.
        l.linked.next_injective i j k hi hj (sym (same_next i) ∙ ei) (sym (same_next j) ∙ ej);
    chain_end = λ i hi e. l.linked.chain_end i hi (sym (same_next i) ∙ e);
    chain_link = λ i j hi e. l.linked.chain_link i j hi (sym (same_next i) ∙ e);
    short = l.linked.short;
  }

  -- the links stay, and each key stays or goes
  pub Keyed-kept : Keyed main size lo nodes' c
  Keyed-kept = record {
    linked = same_links;
    reached = λ i k hi e. l.reached i k hi (kept i k e);
    home = λ i k x hi e f. l.home i k x hi (kept i k e) (kept (main k) x f);
    foreign = λ i k hi e. l.foreign i k hi (kept i k e);
    unique = λ i j k hi hj e f. l.unique i j k hi hj (kept i k e) (kept j k f);
  }

-- A free place for a key that comes: it is on the chain of the key's main position, holds that
-- position or stands from `lo` on, and takes no other key's main position.
pub record Place {K V : Type 0} (main : K → ℕ) (size lo : ℕ) (nodes : ℕ → Node K V) (c : ℕ → List ℕ)
    (h mp : ℕ) : Type 0 where
  pub inside : mp < size
  pub free : (nodes mp).key ≡ none
  pub here : mem mp (c h) ≡ true
  pub owner : (x : K) → (nodes h).key ≡ some x → main x ≡ h
  pub stands : (mp ≡ h) ⊎ (lo ≤ mp)
  pub alone : (i : ℕ) (x : K) → i < size → (nodes i).key ≡ some x → main x ≡ mp → h ≡ mp

module _ {K V : Type 0} {main : K → ℕ} {size lo : ℕ} {nodes : ℕ → Node K V} {c : ℕ → List ℕ}
    (l : Keyed main size lo nodes c) (k : K) {mp : ℕ} (at : Place main size lo nodes c (main k) mp)
    (fresh : (i : ℕ) → i < size → (nodes i).key ≢ some k) where
  abbrev pub with_key : ℕ → Node K V
  with_key = update mp (record (nodes mp) { key = some k }) nodes

  add_links : Linked size lo with_key c
  add_links = record {
    next_in = λ i j hi e. ground (arith, l.linked.next_in i j hi);
    next_injective = λ i j x hi hj ei ej. ground (arith, l.linked.next_injective i j x hi hj);
    chain_end = λ i hi e. ground (arith, l.linked.chain_end i hi);
    chain_link = λ i j hi e. ground (arith, l.linked.chain_link i j hi);
    short = l.linked.short;
  }

  pub Keyed-add : Keyed main size lo with_key c
  Keyed-add = record {
    linked = add_links;
    reached = λ i x hi e. ground (arith, l.reached i x hi, at.here);
    home = λ i x y hi e f. ground (arith, l.home i x y hi, at.owner y, at.alone i x hi);
    foreign = λ i x hi e n. ground (arith, l.foreign i x hi, at.stands);
    unique = λ i j x hi hj e f. ground (arith, l.unique i j x hi hj, fresh i hi, fresh j hj);
  }
