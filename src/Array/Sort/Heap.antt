-- ===== src/Array/Sort/Heap.antt =====
-- Sifting restores the heap: the parent of the place `k` is `k / 2`, so the first place is the
-- parent of the second only.
use sqnim.Array.Reverse.{length-swap}
use sqnim.Array.Sort.Order.{
  IsOrder, not_above, not_below, at-swap_left, at-swap_right, at-swap_other,
}
use sqnim.Array.Sort.Shuffle.{sift_step_cases, max_child_range}
use sqnim.Array.Sort.{Run, done, failed, stuck, max_child, sift_step, sift_down}
use sqnim.Array.{swap}
use sqnim.Prelude.Int.{ℤ, pos, ltb_ℤ}
use sqnim.Prelude.{
  ℕ, zero, suc, ◌+◌, ◌*◌, ◌/◌, ◌≤◌, ◌<◌, ◌≡◌, ◌≢◌, ◌==◌, inl, inr, refl, sym, subst, ◌∙◌, true,
  false, Option, none, some, List, arith, length, get_or, Bool-cases,
}

module _ {S A : Type 0} (def : A) (ask : S → A → A → Option ℤ × S) (cmp : A → A → Option ℤ)
    (le : A → A → Type 0) (order : IsOrder cmp le)
    (answers : (s : S) (a b : A) → (ask s a b).0 ≡ cmp a b) where
  pub le_refl : (a : A) → le a a
  le_refl a = let (r, e) = order.defined a a in order.high a a r e (order.self a r e)

  same : (l : List A) (i j : ℕ) → i ≡ j → le (get_or l i def) (get_or l j def)
  same l i j e = rw e (le_refl (get_or l j def))

  -- what the comparison answers in any state
  answer : (s : S) (a b : A) → (r : ℤ) × (cmp a b ≡ some r) × ((ask s a b).0 ≡ some r)
  answer s a b = let (r, e) = order.defined a b in (r, e, answers s a b ∙ e)

  max_child-defined :
      (l : List A) (c bottom : ℕ) (s : S) → (max_child def ask l c bottom s).0 ≢ none
  unfolding max_child
  max_child-defined l c bottom s h =
      let (r, _, e) = answer s (get_or l c def) (get_or l (c + 1) def) in ground arith

  -- the child that is chosen is not below the other
  max_child-largest :
      (l : List A) (root bottom m k : ℕ) (s : S)
      → (max_child def ask l (root * 2) bottom s).0 ≡ some m
      → 0 < k
      → k ≤ bottom
      → k / 2 ≡ root
      → le (get_or l k def) (get_or l m def)
  unfolding max_child
  max_child-largest l root bottom m k s h pos' hk e =
      let c = root * 2 in
      let (r, d, d') = answer s (get_or l c def) (get_or l (c + 1) def) in
      elim (Bool-cases (c == bottom)) [
        | inl last ↦
            let em : c ≡ m = ground arith in let ek : k ≡ c = ground arith in same l k m (ek ∙ em)
        | inr more ↦ elim (Bool-cases (ltb_ℤ (pos 0) r)) [
          | inl up ↦
              let em : m ≡ c = ground arith in
              elim (Bool-cases (k == c)) [
                | inl t ↦ same l k m (ground arith)
                | inr t ↦
                    let ek : k ≡ c + 1 = ground arith in
                    rw (em, ek) (order.high _ _ r d (not_below r up))
              ]
          | inr down ↦
              let em : m ≡ c + 1 = ground arith in
              elim (Bool-cases (k == c)) [
                | inl t ↦ let ek : k ≡ c = ground arith in rw (em, ek) (order.low _ _ r d down)
                | inr t ↦ same l k m (ground arith)
              ]
        ]
      ]

  -- all places up to `bottom` are at most their parents, as far as those are at or above `lo`
  abbrev pub HeapFrom : ℕ → ℕ → List A → Type 0
  HeapFrom lo bottom l =
      (k : ℕ) → 0 < k → k ≤ bottom → lo ≤ k / 2 → le (get_or l k def) (get_or l (k / 2) def)

  pub record Sifted (lo bottom : ℕ) (l b : List A) : Type 0 where
    pub size : length b ≡ length l
    pub heap : HeapFrom lo bottom b
    pub above : (q : ℕ) → bottom < q → get_or b q def ≡ get_or l q def
    pub bounded :
        (x : A)
        → ((p : ℕ) → p ≤ bottom → le (get_or l p def) x)
        → (p : ℕ) → p ≤ bottom
        → le (get_or b p def) x

  -- the run succeeds, with such a list
  abbrev pub Gives : (List A → Type 0) → Run S A → Type 0
  Gives P (done b s) = P b
  Gives P (failed b s) = ⊥
  Gives P stuck = ⊥

  pub Gives-map :
      {P Q : List A → Type 0} (r : Run S A) → ((b : List A) → P b → Q b) → Gives P r → Gives Q r
  Gives-map (done b s) f g = f b g
  Gives-map (failed b s) f g = absurd g
  Gives-map stuck f g = absurd g

  -- the heap is broken at the children of `root` only, which fit under the parent of `root`
  pub record Broken (lo bottom root : ℕ) (l : List A) : Type 0 where
    pub elsewhere :
        (k : ℕ)
        → 0 < k
        → k ≤ bottom
        → lo ≤ k / 2
        → k / 2 ≢ root
        → le (get_or l k def) (get_or l (k / 2) def)
    pub across :
        (k : ℕ)
        → 0 < k
        → k ≤ bottom
        → k / 2 ≡ root
        → lo ≤ root / 2
        → 0 < root
        → le (get_or l k def) (get_or l (root / 2) def)

  module _ (lo bottom root m : ℕ) (l : List A) (r : ℤ) (s : S) (ordered : lo ≤ root)
      (inside : bottom < length l) (broken : Broken lo bottom root l) (low : root * 2 ≤ bottom)
      (child : (max_child def ask l (root * 2) bottom s).0 ≡ some m)
      (compared : cmp (get_or l root def) (get_or l m def) ≡ some r) (less : ltb_ℤ r (pos 0) ≡ true)
      (moved : root ≢ m) where
    m_range : (root * 2 ≤ m) × (m ≤ bottom) × (m ≤ root * 2 + 1)
    unfolding max_child
    m_range = ground arith

    m_parent : (m / 2 ≡ root) × (0 < m) × (root < m)
    m_parent = omega (arith, m_range)

    at_root : get_or (swap root m l) root def ≡ get_or l m def
    at_root = at-swap_left l root m def (omega (arith, m_range)) (omega (arith, m_range)) moved

    at_child : get_or (swap root m l) m def ≡ get_or l root def
    at_child = at-swap_right l root m def (omega (arith, m_range)) (omega (arith, m_range))

    at_other : (q : ℕ) → q ≢ root → q ≢ m → get_or (swap root m l) q def ≡ get_or l q def
    at_other = at-swap_other l root m def (omega (arith, m_range)) (omega (arith, m_range))

    elsewhere' :
        (k : ℕ)
        → 0 < k
        → k ≤ bottom
        → lo ≤ k / 2
        → k / 2 ≢ m
        → le (get_or (swap root m l) k def) (get_or (swap root m l) (k / 2) def)
    elsewhere' k h0 hb hl ne = elim (Bool-cases (k == m)) [
      | inl t ↦
          let ek : k ≡ m = ground arith in
          let ep : k / 2 ≡ root = omega (arith, m_parent) in
          rw (ep, ek, at_child, at_root) (order.low _ _ r compared (not_above r less))
      | inr t ↦ elim (Bool-cases (k / 2 == root)) [
        | inl u ↦
            let ep : k / 2 ≡ root = ground arith in
            rw (at_other k (omega arith) (ground arith), ep, at_root)
              (max_child-largest l root bottom m k s child h0 hb ep)
        | inr u ↦ elim (Bool-cases (k == root)) [
          | inl v ↦
              let ek : k ≡ root = ground arith in
              rw (at_other (k / 2) (ground arith) ne, ek, at_root)
                (broken.across m m_parent.1 (omega (arith, m_range)) m_parent.0 (omega arith)
                  (omega arith))
          | inr v ↦
              rw (at_other (k / 2) (ground arith) ne, at_other k (ground arith) (ground arith))
                (broken.elsewhere k h0 hb hl (ground arith))
        ]
      ]
    ]

    swap-Broken : Broken lo bottom m (swap root m l)
    swap-Broken = record {
      elsewhere = elsewhere';
      across = λ k h0 hb hm hl _.
          let nr : k ≢ root = omega (arith, m_parent) in
          let nm : k ≢ m = omega (arith, m_parent) in
          rw (m_parent.0, at_root, at_other k nr nm, ← hm)
            (broken.elsewhere k h0 hb (omega (arith, m_parent)) (omega (arith, m_parent)));
    }

    swap-bounded :
        (x : A)
        → ((p : ℕ) → p ≤ bottom → le (get_or l p def) x)
        → (p : ℕ) → p ≤ bottom
        → le (get_or (swap root m l) p def) x
    swap-bounded x h p hp = elim (Bool-cases (p == m)) [
      | inl t ↦ let e : p ≡ m = ground arith in rw (e, at_child) (h root (omega arith))
      | inr t ↦ elim (Bool-cases (p == root)) [
        | inl u ↦ let e : p ≡ root = ground arith in rw (e, at_root) (h m (omega (arith, m_range)))
        | inr u ↦ rw (at_other p (ground arith) (ground arith)) (h p hp)
      ]
    ]

    swap-Sifted : (b : List A) → Sifted lo bottom (swap root m l) b → Sifted lo bottom l b
    swap-Sifted b s = record {
      size = s.size ∙ length-swap root m l;
      heap = s.heap;
      above = λ q h. s.above q h ∙ at_other q (omega arith) (omega (arith, m_range));
      bounded = λ x h. s.bounded x (swap-bounded x h);
    }

  module _ (lo bottom root : ℕ) (l : List A) (ordered : lo ≤ root) (inside : bottom < length l)
      (broken : Broken lo bottom root l) where
    stop-Sifted : HeapFrom lo bottom l → Sifted lo bottom l l
    stop-Sifted h = record { size = refl; heap = h; above = λ q _. refl; bounded = λ x f. f }

    past-heap : bottom < root * 2 → HeapFrom lo bottom l
    past-heap low k h0 hb hl = broken.elsewhere k h0 hb hl (omega arith)

    done-heap :
        (m : ℕ) (r : ℤ) (s : S)
        → (max_child def ask l (root * 2) bottom s).0 ≡ some m
        → cmp (get_or l root def) (get_or l m def) ≡ some r
        → ltb_ℤ r (pos 0) ≡ false
        → HeapFrom lo bottom l
    done-heap m r s child compared b k h0 hb hl = elim (Bool-cases (k / 2 == root)) [
      | inl t ↦
          let e : k / 2 ≡ root = ground arith in
          rw e (
            order.le_trans _ _ _ (max_child-largest l root bottom m k s child h0 hb e)
              (order.high _ _ r compared b))
      | inr t ↦ broken.elsewhere k h0 hb hl (ground arith)
    ]

    impossible_self :
        (m : ℕ) (r : ℤ)
        → cmp (get_or l root def) (get_or l m def) ≡ some r
        → ltb_ℤ r (pos 0) ≡ true
        → root ≡ m
        → ⊥
    impossible_self m r compared less e =
        let again : cmp (get_or l root def) (get_or l root def) ≡ some r =
          subst (λ t. cmp (get_or l root def) (get_or l t def) ≡ some r) (sym e) compared in
        let no_less = order.self (get_or l root def) r again in cc

    impossible_answer : (m : ℕ) (t : S) → (ask t (get_or l root def) (get_or l m def)).0 ≡ none → ⊥
    impossible_answer m t h = let (r, _, e) = answer t (get_or l root def) (get_or l m def) in cc

    answered :
        (m : ℕ) (r : ℤ) (t : S)
        → (ask t (get_or l root def) (get_or l m def)).0 ≡ some r
        → cmp (get_or l root def) (get_or l m def) ≡ some r
    answered m r t e = sym (answers t (get_or l root def) (get_or l m def)) ∙ e

    step-Sifted :
        (s : S) (rest : ℕ → S → Run S A)
        → ((m : ℕ) (t : S)
            → m ≤ bottom
            → root < m
            → Broken lo bottom m (swap root m l)
            → Gives (Sifted lo bottom (swap root m l)) (rest m t))
        → Gives (Sifted lo bottom l) (sift_step def ask l root bottom s rest)
    step-Sifted s rest go =
        sift_step_cases def ask (Gives (Sifted lo bottom l)) l root bottom s rest
          (λ _ e. max_child-defined l (root * 2) bottom s e) (λ m t _ e. impossible_answer m t e)
          (λ m r t _ _ c b e. impossible_self m r (answered m r t c) b e)
          (λ e. stop-Sifted (past-heap e))
          (λ m r t _ _ child c b. stop-Sifted (done-heap m r s child (answered m r t c) b))
          (λ m r t u low child c b ne.
            let range = max_child_range def ask l (root * 2) bottom m s low child in
            let c' = answered m r t c in
            Gives-map (rest m u)
              (swap-Sifted lo bottom root m l r s ordered inside broken low child c' b ne)
              (go m u (omega (arith, range)) (omega (arith, range))
                (swap-Broken lo bottom root m l r s ordered inside broken low child c' b ne)))

  -- Sifting a heap that is broken at `root` only succeeds and mends it, touching no place above
  -- `bottom`.
  pub sift_down-Sifted :
      (f lo bottom root : ℕ) (l : List A) (s : S)
      → bottom ≤ f + root
      → lo ≤ root
      → bottom < length l
      → Broken lo bottom root l
      → Gives (Sifted lo bottom l) (sift_down def ask (suc f) l root bottom s)
  unfolding sift_down
  sift_down-Sifted zero lo bottom root l s h ordered inside broken =
      step-Sifted lo bottom root l ordered inside broken s (λ m t. stuck)
        (λ m _ hm hr _. absurd (omega arith))
  sift_down-Sifted (suc f) lo bottom root l s h ordered inside broken =
      step-Sifted lo bottom root l ordered inside broken s _ (λ m t hm hr b.
        sift_down-Sifted f lo bottom m (swap root m l) t (omega arith) (omega arith)
          (omega (arith, length-swap root m l)) b)
