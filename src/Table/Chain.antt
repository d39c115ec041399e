-- ===== src/Table/Chain.antt =====
-- The chains of colliding keys: each node's chain as a list of positions, and the loops that walk
-- one.
use native.Mathlib.Nat.{le_refl}
use sqnim.Prelude.{
  ℕ, zero, suc, ◌+◌, ◌≤◌, ◌<◌, ◌≡◌, ◌≢◌, ◌↔◌, ◌⊎◌, inl, inr, refl, sym, ap, Bool, true, false, ◌||◌,
  Option, none, some, List, [], ◌∷◌, arith, length, ◌==◌, Bool-cases, Option-cases,
}
use sqnim.Table.{Node, find, find_previous, same_key}

abbrev pub mem : ℕ → List ℕ → Bool
mem x [] = false
mem x (y ∷ l) = x == y || mem x l

-- The nodes below `size` with their chains `c`: every link leads to a node from `lo` on, no two to
-- the same one, and chains are short enough for the loops over them.
pub record Linked {K V : Type 0} (size lo : ℕ) (nodes : ℕ → Node K V) (c : ℕ → List ℕ)
    : Type 0 where
  pub next_in : (i j : ℕ) → i < size → (nodes i).next ≡ some j → (lo ≤ j) × (j < size)
  pub next_injective :
      (i j k : ℕ) → i < size → j < size → (nodes i).next ≡ some k → (nodes j).next ≡ some k → i ≡ j
  pub chain_end : (i : ℕ) → i < size → (nodes i).next ≡ none → c i ≡ i ∷ []
  pub chain_link : (i j : ℕ) → i < size → (nodes i).next ≡ some j → c i ≡ i ∷ c j
  pub short : (i : ℕ) → i < size → length (c i) + lo ≤ size + 1

module _ {K V : Type 0} {size lo : ℕ} {nodes : ℕ → Node K V} {c : ℕ → List ℕ}
    (linked : Linked size lo nodes c) where
  -- what follows a node on its chain
  pub chain_cases :
      (i : ℕ)
      → i < size
      → (((nodes i).next ≡ none) × (c i ≡ i ∷ []))
        ⊎ ((j : ℕ) × ((nodes i).next ≡ some j) × (c i ≡ i ∷ c j) × (lo ≤ j) × (j < size))
  chain_cases i h = elim (Option-cases (nodes i).next) [
    | inl e ↦ inl (e, linked.chain_end i h e)
    | inr (j, e) ↦
        let (low, inside) = linked.next_in i j h e in
        inr (j, e, linked.chain_link i j h e, low, inside)
  ]

  -- a member of a chain is its first node or on the chain of the next one, which is shorter
  pub mem_cases :
      (i x : ℕ)
      → i < size
      → mem x (c i) ≡ true
      → (x ≡ i)
        ⊎ ((j : ℕ) × ((nodes i).next ≡ some j)
            × (mem x (c j) ≡ true)
            × (suc (length (c j)) ≡ length (c i))
            × (lo ≤ j)
            × (j < size))
  mem_cases i x h m = elim (chain_cases i h) [
    | inl (e, f) ↦ let m' : mem x (i ∷ []) ≡ true = rw f at m in inl (ground arith)
    | inr (j, e, f, low, inside) ↦
        let m' : mem x (i ∷ c j) ≡ true = rw f at m in
        elim (Bool-cases (x == i)) [
          | inl here ↦ inl (ground arith)
          | inr there ↦
              let m'' : mem x (c j) ≡ true = ground arith in
              inr (j, e, m'', sym (ap length f), low, inside)
        ]
  ]

  pub first_mem : (i : ℕ) → i < size → mem i (c i) ≡ true
  first_mem i h = elim (chain_cases i h) [
    | inl (e, f) ↦ rw f (ground arith)
    | inr (j, e, f, low, inside) ↦ rw f (ground arith)
  ]

  nonempty : (i : ℕ) → i < size → 0 < length (c i)
  nonempty i h = elim (chain_cases i h) [
    | inl (e, f) ↦ rw f (omega arith)
    | inr (j, e, f, low, inside) ↦ rw f (omega arith)
  ]

  suffix_within :
      (n i x : ℕ) → i < size → length (c i) ≤ n → mem x (c i) ≡ true → length (c x) ≤ length (c i)
  suffix_within zero i x h b m = elim (mem_cases i x h m) [
    | inl e ↦ rw e (le_refl _)
    | inr (j, e, m', shorter, low, inside) ↦ absurd (omega (arith, shorter, b))
  ]
  suffix_within (suc n) i x h b m = elim (mem_cases i x h m) [
    | inl e ↦ rw e (le_refl _)
    | inr (j, e, m', shorter, low, inside) ↦
        omega (arith, suffix_within n j x inside (omega (arith, shorter, b)) m', shorter)
  ]

  pub suffix_shorter : (i x : ℕ) → i < size → mem x (c i) ≡ true → length (c x) ≤ length (c i)
  suffix_shorter i x h m = suffix_within (length (c i)) i x h (omega arith) m

  -- no chain comes back to a node that it has left
  pub no_return : (i j : ℕ) → i < size → (nodes i).next ≡ some j → mem i (c j) ≡ false
  no_return i j h e = elim (Bool-cases (mem i (c j))) [
    | inr out ↦ out
    | inl m ↦
        let shorter = ap length (linked.chain_link i j h e) in
        let (low, inside) = linked.next_in i j h e in
        absurd (omega (arith, suffix_shorter j i inside m, shorter))
  ]

  members_within :
      (n i x : ℕ)
      → i < size
      → length (c i) ≤ n
      → mem x (c i) ≡ true
      → (x < size) × ((x ≡ i) ⊎ (lo ≤ x))
  members_within zero i x h b m = elim (mem_cases i x h m) [
    | inl e ↦ (rw e h, inl e)
    | inr (j, e, m', shorter, low, inside) ↦ absurd (omega (arith, shorter, b))
  ]
  members_within (suc n) i x h b m = elim (mem_cases i x h m) [
    | inl e ↦ (rw e h, inl e)
    | inr (j, e, m', shorter, low, inside) ↦
        let (below, place) = members_within n j x inside (omega (arith, shorter, b)) m' in
        (below, inr (elim place [ inl at ↦ rw at low | inr above ↦ above ]))
  ]

  -- a member of a chain is a node, and stands from `lo` on unless it is the first
  pub members : (i x : ℕ) → i < size → mem x (c i) ≡ true → (x < size) × ((x ≡ i) ⊎ (lo ≤ x))
  members i x h m = members_within (length (c i)) i x h (omega arith) m

  -- the walk to the node before one on the chain
  pub find_previous_lem :
      (n i x : ℕ)
      → i < size
      → length (c i) ≤ n
      → mem x (c i) ≡ true
      → x ≢ i
      → (o : ℕ) × (find_previous n nodes x i ≡ some o) × (o < size) × ((nodes o).next ≡ some x)
  unfolding find_previous
  find_previous_lem zero i x h b m ne = elim (mem_cases i x h m) [
    | inl e ↦ absurd (ne e)
    | inr (j, e, m', shorter, low, inside) ↦ absurd (omega (arith, shorter, b))
  ]
  find_previous_lem (suc n) i x h b m ne = elim (mem_cases i x h m) [
    | inl e ↦ absurd (ne e)
    | inr (j, e, m', shorter, low, inside) ↦ elim (Bool-cases (j == x)) [
      | inl at ↦ (i, rw (find_previous, e, at), h, ground arith)
      | inr past ↦
          let ne' : x ≢ j = ground arith in
          let (o, found, below, before) =
            find_previous_lem n j x inside (omega (arith, shorter, b)) m' ne' in
          (o, rw (find_previous, e, past) found, below, before)
    ]
  ]

module _ {K : Type 0} (same : K → K → Bool)
    (same_iff : (a b : K) → (same a b ≡ true) ↔ (a ≡ b)) where
  pub same_key_sound : (o p : Option K) → same_key same o p ≡ true → o ≡ p
  same_key_sound none none h = refl
  same_key_sound none (some k) h = cc
  same_key_sound (some j) none h = cc
  same_key_sound (some j) (some k) h = ap some ((same_iff j k).0 h)

  pub same_key_refl : (o : Option K) (k : K) → o ≡ some k → same_key same o (some k) ≡ true
  same_key_refl o k e = rw e ((same_iff k k).1 refl)

module _ {K V : Type 0} (same : K → K → Bool) (same_iff : (a b : K) → (same a b ≡ true) ↔ (a ≡ b))
    {size lo : ℕ} {nodes : ℕ → Node K V} {c : ℕ → List ℕ} (linked : Linked size lo nodes c) where
  -- the walk of `_Get` to a key on the chain that stands nowhere else
  pub find_complete :
      (n i x : ℕ) (k : K)
      → i < size
      → length (c i) ≤ n
      → mem x (c i) ≡ true
      → (nodes x).key ≡ some k
      → ((j : ℕ) → j < size → (nodes j).key ≡ some k → j ≡ x)
      → find same n nodes (some k) i ≡ some x
  unfolding find
  find_complete zero i x k h b m e unique = absurd (omega (arith, nonempty linked i h, b))
  find_complete (suc n) i x k h b m e unique =
      elim (Bool-cases (same_key same (nodes i).key (some k))) [
        | inl hit ↦
            let at : i ≡ x = unique i h (same_key_sound same same_iff (nodes i).key (some k) hit) in
            rw (find, hit) (ap some at)
        | inr miss ↦ elim (mem_cases linked i x h m) [
          | inl at ↦
              let here : (nodes i).key ≡ some k = rw (← at) e in
              absurd (ground (arith, same_key_refl same same_iff (nodes i).key k here, miss))
          | inr (j, e', m', shorter, low, inside) ↦
              rw (find, miss, e')
                (find_complete n j x k inside (omega (arith, shorter, b)) m' e unique)
        ]
      ]

  pub find_sound :
      (n i x : ℕ) (k : Option K)
      → i < size
      → find same n nodes k i ≡ some x
      → (x < size) × ((nodes x).key ≡ k)
  unfolding find
  find_sound zero i x k h e = absurd (cc e)
  find_sound (suc n) i x k h e = elim (Bool-cases (same_key same (nodes i).key k)) [
    | inl hit ↦
        let at : i ≡ x = ground arith in
        rw (← at) (h, same_key_sound same same_iff (nodes i).key k hit)
    | inr miss ↦ elim (Option-cases (nodes i).next) [
      | inl e' ↦ absurd (ground arith)
      | inr (j, e') ↦
          let (low, inside) = linked.next_in i j h e' in
          let e'' : find same n nodes k j ≡ some x = ground arith in find_sound n j x k inside e''
    ]
  ]
