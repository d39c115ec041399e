-- ===== src/Array/Sort/Shuffle.antt =====
-- The sort ends, and only moves elements, whatever the comparison answers.
use mathlib.Core.List.Perm
use mathlib.Core.List.{Perm, Permᴰ}
use mathlib.Core.Logic.{∥∥₁_elim}
use native.Mathlib.Nat.{ℕ_set}
use sqnim.Array.Sort.{
  Run, done, failed, stuck, at, max_child, sift_child, sift_step, sift_down, heap_loop,
  extract_loop, array_sort, and_then,
}
use sqnim.Array.{swap}
use sqnim.Prelude.Int.{ℤ, pos, ltb_ℤ}
use sqnim.Prelude.{
  ℕ, zero, suc, ◌+◌, ◌-◌, ◌*◌, ◌/◌, ◌≤◌, ◌<◌, ◌≡◌, ◌≢◌, ◌==◌, inl, inr, refl, ap, ◌∙◌, true, false,
  Option, none, some, List, [], ◌∷◌, arith, length, get_elem?, set, ltb, leb, Option-cases,
  Bool-cases,
}

module _ {A : Type 0} where
  exchange : (l : List A) (j : ℕ) (a b : A) → get_elem? l j ≡ some b → Perm (b ∷ set l j a) (a ∷ l)
  exchange [] j a b h = cc
  exchange (y ∷ l) zero a b h = let e : y ≡ b = cc in rw e (Perm.swap a b l)
  exchange (y ∷ l) (suc j) a b h =
      Perm.trans (Perm.swap y b (set l j a))
        (Perm.trans (Perm.cons y (exchange l j a b h)) (Perm.swap a y l))

  swapped-perm :
      (l : List A) (i j : ℕ) (a b : A)
      → get_elem? l i ≡ some a
      → get_elem? l j ≡ some b
      → Perm (set (set l i b) j a) l
  swapped-perm [] i j a b hi hj = cc
  swapped-perm (y ∷ l) zero zero a b hi hj = let e : y ≡ a = cc in rw e (Perm.refl (a ∷ l))
  swapped-perm (y ∷ l) zero (suc j) a b hi hj = let e : y ≡ a = cc in rw e (exchange l j a b hj)
  swapped-perm (y ∷ l) (suc i) zero a b hi hj = let e : y ≡ b = cc in rw e (exchange l i b a hi)
  swapped-perm (y ∷ l) (suc i) (suc j) a b hi hj = Perm.cons y (swapped-perm l i j a b hi hj)

  pub swap-perm : (i j : ℕ) (l : List A) → Perm (swap i j l) l
  swap-perm i j l = elim (Option-cases (get_elem? l i)) [
    | inl e ↦ unfold swap in rw (e, swap) (Perm.refl l)
    | inr (a, e) ↦ elim (Option-cases (get_elem? l j)) [
      | inl f ↦ unfold swap in rw (e, swap, f) (Perm.refl l)
      | inr (b, f) ↦ unfold swap in rw (e, swap, f) (swapped-perm l i j a b e f)
    ]
  ]

  -- the run ended, and its list is a rearrangement of this one
  abbrev pub Finishes : {S : Type 0} → List A → Run S A → Type 0
  Finishes l (done l' s) = Perm l' l
  Finishes l (failed l' s) = Perm l' l
  Finishes l stuck = ⊥

  Finishes-trans :
      {S : Type 0} {k l : List A} (r : Run S A) → Perm k l → Finishes k r → Finishes l r
  Finishes-trans (done l' s) p q = Perm.trans q p
  Finishes-trans (failed l' s) p q = Perm.trans q p
  Finishes-trans stuck p q = q

  -- the length that a permutation keeps, in native numbers
  length-permᴰ : {k l : List A} → Permᴰ k l → length k ≡ length l
  length-permᴰ Permᴰ.nil = refl
  length-permᴰ (Permᴰ.cons e p) = ap suc (length-permᴰ p)
  length-permᴰ (Permᴰ.swap e f) = refl
  length-permᴰ (Permᴰ.trans p q) = length-permᴰ p ∙ length-permᴰ q

  pub length-perm : {k l : List A} → Perm k l → length k ≡ length l
  length-perm p = ∥∥₁_elim p (ℕ_set _ _) length-permᴰ

  and_then-Finishes :
      {S : Type 0} {l : List A} (r : Run S A) (next : List A → S → Run S A)
      → Finishes l r
      → ((k : List A) (s : S) → Perm k l → Finishes k (next k s))
      → Finishes l (and_then r next)
  and_then-Finishes (done k s) next p go = Finishes-trans (next k s) p (go k s p)
  and_then-Finishes (failed k s) next p go = p
  and_then-Finishes stuck next p go = p

module _ {S A : Type 0} (def : A) (ask : S → A → A → Option ℤ × S) where
  pub max_child_range :
      (l : List A) (root2 bottom m : ℕ) (s : S)
      → root2 ≤ bottom
      → (max_child def ask l root2 bottom s).0 ≡ some m
      → (root2 ≤ m) × (m ≤ bottom)
  unfolding max_child
  max_child_range l root2 bottom m s h e = ground arith

  -- what one round can do in some states: fail, stop, or go on with a child
  pub sift_step_cases :
      (Q : Run S A → Type 0) (l : List A) (root bottom : ℕ) (s : S) (rest : ℕ → S → Run S A)
      → ((t : S) → (max_child def ask l (root * 2) bottom s).0 ≡ none → Q (failed l t))
      → ((m : ℕ) (t u : S) → (ask t (at def ask l root) (at def ask l m)).0 ≡ none → Q (failed l u))
      → ((m : ℕ) (r : ℤ) (t u : S)
          → (max_child def ask l (root * 2) bottom s).0 ≡ some m
          → (ask t (at def ask l root) (at def ask l m)).0 ≡ some r
          → ltb_ℤ r (pos 0) ≡ true
          → root ≡ m
          → Q (failed l u))
      → (bottom < root * 2 → Q (done l s))
      → ((m : ℕ) (r : ℤ) (t u : S)
          → root * 2 ≤ bottom
          → (max_child def ask l (root * 2) bottom s).0 ≡ some m
          → (ask t (at def ask l root) (at def ask l m)).0 ≡ some r
          → ltb_ℤ r (pos 0) ≡ false
          → Q (done l u))
      → ((m : ℕ) (r : ℤ) (t u : S)
          → root * 2 ≤ bottom
          → (max_child def ask l (root * 2) bottom s).0 ≡ some m
          → (ask t (at def ask l root) (at def ask l m)).0 ≡ some r
          → ltb_ℤ r (pos 0) ≡ true
          → root ≢ m
          → Q (rest m u))
      → Q (sift_step def ask l root bottom s rest)
  unfolding sift_step sift_child
  sift_step_cases Q l root bottom s rest none_left no_answer self past stop go =
      let t : S = (max_child def ask l (root * 2) bottom s).1 in
      elim (Bool-cases (leb (root * 2) bottom)) [
        | inr e ↦ rw (sift_step, e) (past (ground arith))
        | inl e ↦ elim (Option-cases (max_child def ask l (root * 2) bottom s).0) [
          | inl n ↦ rw (sift_step, e, n) (none_left _ n)
          | inr (m, n) ↦ elim (Option-cases (ask t (at def ask l root) (at def ask l m)).0) [
            | inl c ↦ rw (sift_step, e, n, sift_child, c) (no_answer m t _ c)
            | inr (r, c) ↦ elim (Bool-cases (ltb_ℤ r (pos 0))) [
              | inr b ↦ rw (sift_step, e, n, sift_child, c, b) (stop m r t _ (ground arith) n c b)
              | inl b ↦ elim (Bool-cases (root == m)) [
                | inl k ↦
                    rw (sift_step, e, n, sift_child, c, b, k) (self m r t _ n c b (ground arith))
                | inr k ↦
                    rw (sift_step, e, n, sift_child, c, b, k)
                      (go m r t _ (ground arith) n c b (ground arith))
              ]
            ]
          ]
        ]
      ]

  sift_down-Finishes :
      (f : ℕ) (l : List A) (root bottom : ℕ) (s : S)
      → bottom ≤ f + root
      → Finishes l (sift_down def ask (suc f) l root bottom s)
  unfolding sift_down
  sift_down-Finishes zero l root bottom s h =
      sift_step_cases (Finishes l) l root bottom s (λ m t. stuck) (λ _ _. Perm.refl l)
        (λ m _ _ _. Perm.refl l) (λ m r _ _ _ _ _ _. Perm.refl l) (λ _. Perm.refl l)
        (λ m r _ _ _ _ _ _. Perm.refl l)
        (λ m r _ _ low e c b ne.
          absurd (omega (arith, max_child_range l (root * 2) bottom m s low e)))
  sift_down-Finishes (suc f) l root bottom s h =
      sift_step_cases (Finishes l) l root bottom s _ (λ _ _. Perm.refl l) (λ m _ _ _. Perm.refl l)
        (λ m r _ _ _ _ _ _. Perm.refl l) (λ _. Perm.refl l) (λ m r _ _ _ _ _ _. Perm.refl l)
        (λ m r _ u low e c b ne.
          Finishes-trans (sift_down def ask (suc f) (swap root m l) m bottom u) (swap-perm root m l)
            (sift_down-Finishes f (swap root m l) m bottom u
              (omega (arith, max_child_range l (root * 2) bottom m s low e))))

  heap_loop-Finishes : (i : ℕ) (l : List A) (s : S) → Finishes l (heap_loop def ask i l s)
  unfolding heap_loop
  heap_loop-Finishes zero l s = sift_down-Finishes (length l) l 0 (length l - 1) s (omega arith)
  heap_loop-Finishes (suc i) l s =
      and_then-Finishes (sift_down def ask (suc (length l)) l (suc i) (length l - 1) s)
        (heap_loop def ask i)
        (sift_down-Finishes (length l) l (suc i) (length l - 1) s (omega arith))
        (λ k t _. heap_loop-Finishes i k t)

  extract_loop-Finishes :
      (i : ℕ) (l : List A) (s : S) → i ≤ length l → Finishes l (extract_loop def ask i l s)
  unfolding extract_loop
  extract_loop-Finishes zero l s h = Perm.refl l
  extract_loop-Finishes (suc i) l s h =
      and_then-Finishes (sift_down def ask (suc (length l)) (swap 0 (suc i) l) 0 i s)
        (extract_loop def ask i)
        (Finishes-trans (sift_down def ask (suc (length l)) (swap 0 (suc i) l) 0 i s)
          (swap-perm 0 (suc i) l)
          (sift_down-Finishes (length l) (swap 0 (suc i) l) 0 i s (omega arith)))
        (λ k t p. extract_loop-Finishes i k t (omega (arith, length-perm p)))

  -- Whatever the comparison answers, consistent or not, also if its answers depend on a state that
  -- it changes, sorting ends, and the array is a rearrangement of what it was, also where the
  -- comparison fails half way. A comparison that changes the array is left out.
  pub array_sort-Finishes : (l : List A) (s : S) → Finishes l (array_sort def ask l s)
  unfolding array_sort
  array_sort-Finishes l s = elim (Bool-cases (ltb 1 (length l))) [
    | inr e ↦ rw e (Perm.refl l)
    | inl e ↦ rw e (
        and_then-Finishes (heap_loop def ask (length l / 2) l s)
          (extract_loop def ask (length l - 1)) (heap_loop-Finishes (length l / 2) l s)
          (λ k t p. extract_loop-Finishes (length l - 1) k t (omega (arith, length-perm p))))
  ]
