-- ===== src/Array/Sort/Sorted.antt =====
-- With a consistent comparison the array comes out sorted.
use mathlib.Core.List.{Perm}
use sqnim.Array.Reverse.{length-swap}
use sqnim.Array.Sort.Heap.{HeapFrom, Sifted, Gives, Gives-map, Broken, sift_down-Sifted, le_refl}
use sqnim.Array.Sort.Order.{IsOrder, at-swap_left, at-swap_right, at-swap_other}
use sqnim.Array.Sort.Shuffle.{Finishes, array_sort-Finishes}
use sqnim.Array.Sort.{
  Run, done, failed, stuck, and_then, sift_down, heap_loop, extract_loop, array_sort,
}
use sqnim.Array.{swap}
use sqnim.Prelude.Int.{ℤ}
use sqnim.Prelude.{
  ℕ, zero, suc, ◌-◌, ◌/◌, ◌≤◌, ◌<◌, ◌≡◌, ◌≢◌, ◌==◌, inl, inr, refl, ◌∙◌, Option, List, arith,
  length, get_or, ltb, Bool-cases,
}

module _ {S A : Type 0} (def : A) (ask : S → A → A → Option ℤ × S) (cmp : A → A → Option ℤ)
    (le : A → A → Type 0) (order : IsOrder cmp le)
    (answers : (s : S) (a b : A) → (ask s a b).0 ≡ cmp a b) where
  -- each element is at most every later one
  abbrev pub IsSorted : List A → Type 0
  IsSorted l = (p q : ℕ) → p < q → q < length l → le (get_or l p def) (get_or l q def)

  and_then-Gives :
      {P : List A → Type 0} (Q : List A → Type 0) (r : Run S A) (next : List A → S → Run S A)
      → Gives def ask cmp le order answers P r
      → ((k : List A) (s : S) → P k → Gives def ask cmp le order answers Q (next k s))
      → Gives def ask cmp le order answers Q (and_then r next)
  and_then-Gives Q (done k s) next p go = go k s p
  and_then-Gives Q (failed k s) next p go = absurd p
  and_then-Gives Q stuck next p go = absurd p

  abbrev IsHeap : ℕ → ℕ → List A → Type 0
  IsHeap n lo l = (length l ≡ n) × HeapFrom def ask cmp le order answers lo (n - 1) l

  sift-IsHeap :
      (n i : ℕ) (l : List A) (s : S)
      → 0 < n
      → IsHeap n (suc i) l
      → Gives def ask cmp le order answers
          (IsHeap n i)
          (sift_down def ask (suc (length l)) l i (length l - 1) s)
  sift-IsHeap n i l s h0 (e, h) = rw e (
      Gives-map def ask cmp le order answers (sift_down def ask (suc n) l i (n - 1) s)
        (λ b f. (f.size ∙ e, f.heap))
        (sift_down-Sifted def ask cmp le order answers n i (n - 1) i l s (omega arith) (omega arith)
          (omega (arith, e))
          (record {
            elsewhere = λ k k0 kb kl ne. h k k0 kb (omega arith);
            across = λ k k0 kb ke kl i0. absurd (omega arith);
          })))

  heap_loop-IsHeap :
      (n i : ℕ) (l : List A) (s : S)
      → 0 < n
      → IsHeap n (suc i) l
      → Gives def ask cmp le order answers (IsHeap n 0) (heap_loop def ask i l s)
  unfolding heap_loop
  heap_loop-IsHeap n zero l s h0 h = sift-IsHeap n 0 l s h0 h
  heap_loop-IsHeap n (suc i) l s h0 h =
      and_then-Gives (IsHeap n 0) (sift_down def ask (suc (length l)) l (suc i) (length l - 1) s)
        (heap_loop def ask i) (sift-IsHeap n (suc i) l s h0 h)
        (λ k t p. heap_loop-IsHeap n i k t h0 p)

  -- the first place of a heap is the largest
  heap_max :
      (f k bottom : ℕ) (l : List A)
      → k ≤ f
      → k ≤ bottom
      → HeapFrom def ask cmp le order answers 0 bottom l
      → le (get_or l k def) (get_or l 0 def)
  heap_max f zero bottom l hf hb h = le_refl def ask cmp le order answers (get_or l 0 def)
  heap_max zero (suc k) bottom l hf hb h = absurd (omega arith)
  heap_max (suc f) (suc k) bottom l hf hb h =
      order.le_trans _ _ _ (h (suc k) (omega arith) hb (omega arith))
        (heap_max f (suc k / 2) bottom l (omega arith) (omega arith) h)

  -- a heap up to `i`, and above it the largest elements in order
  record Partial (n i : ℕ) (l : List A) : Type 0 where
    size : length l ≡ n
    heap : HeapFrom def ask cmp le order answers 0 i l
    bound : (p q : ℕ) → p ≤ i → i < q → q < n → le (get_or l p def) (get_or l q def)
    tail : (p q : ℕ) → i < p → p < q → q < n → le (get_or l p def) (get_or l q def)

  module _ (n i : ℕ) (l : List A) (inside : suc i < n) (part : Partial n (suc i) l) where
    abbrev swapped : List A
    swapped = swap 0 (suc i) l

    at_first : get_or swapped 0 def ≡ get_or l (suc i) def
    at_first =
        at-swap_left l 0 (suc i) def (omega (arith, part.size)) (omega (arith, part.size))
          (omega arith)

    at_last : get_or swapped (suc i) def ≡ get_or l 0 def
    at_last = at-swap_right l 0 (suc i) def (omega (arith, part.size)) (omega (arith, part.size))

    at_rest : (q : ℕ) → q ≢ 0 → q ≢ suc i → get_or swapped q def ≡ get_or l q def
    at_rest = at-swap_other l 0 (suc i) def (omega (arith, part.size)) (omega (arith, part.size))

    largest : (k : ℕ) → k ≤ suc i → le (get_or l k def) (get_or l 0 def)
    largest k hk = heap_max k k (suc i) l (omega arith) hk part.heap

    swapped-Broken : Broken def ask cmp le order answers 0 i 0 swapped
    swapped-Broken = record {
      elsewhere = λ k k0 kb _ ne.
          rw (at_rest k (omega arith) (omega arith), at_rest (k / 2) ne (omega arith))
            (part.heap k k0 (omega arith) (omega arith));
      across = λ k k0 kb ke kl i0. absurd (omega arith);
    }

    -- what holds of all the places of the smaller heap before the swap and of its new first one
    below :
        (x : A)
        → ((k : ℕ) → k ≤ suc i → le (get_or l k def) x)
        → (p : ℕ) → p ≤ i
        → le (get_or swapped p def) x
    below x h p hp = elim (Bool-cases (p == 0)) [
      | inl t ↦ let e : p ≡ 0 = ground arith in rw (e, at_first) (h (suc i) (omega arith))
      | inr t ↦ rw (at_rest p (ground arith) (omega arith)) (h p (omega arith))
    ]

    Sifted-Partial :
        (b : List A) → Sifted def ask cmp le order answers 0 i swapped b → Partial n i b
    Sifted-Partial b s = record {
      size = s.size ∙ length-swap 0 (suc i) l ∙ part.size;
      heap = s.heap;
      bound = λ p q hp hq hn. elim (Bool-cases (q == suc i)) [
        | inl t ↦
            let e : q ≡ suc i = ground arith in
            rw (e, s.above (suc i) (omega arith), at_last)
              (s.bounded (get_or l 0 def) (below _ largest) p hp)
        | inr t ↦
            rw (s.above q hq, at_rest q (omega arith) (ground arith))
              (s.bounded (get_or l q def) (below _ (λ k hk. part.bound k q hk (ground arith) hn)) p
                hp)
      ];
      tail = λ p q hp hpq hn.
          let hq : q ≢ suc i = omega arith in
          elim (Bool-cases (p == suc i)) [
            | inl t ↦
                let e : p ≡ suc i = ground arith in
                rw
                  (
                    s.above q (omega arith),
                    at_rest q (omega arith) hq,
                    e,
                    s.above (suc i) (omega arith),
                    at_last,
                  )
                  (part.bound 0 q (omega arith) (omega arith) hn)
            | inr t ↦
                rw
                  (
                    s.above q (omega arith),
                    at_rest q (omega arith) hq,
                    s.above p hp,
                    at_rest p (omega arith) (ground arith),
                  )
                  (part.tail p q (ground arith) hpq hn)
          ];
    }

  extract_loop-IsSorted :
      (n i : ℕ) (l : List A) (s : S)
      → i < n
      → Partial n i l
      → Gives def ask cmp le order answers IsSorted (extract_loop def ask i l s)
  unfolding extract_loop
  extract_loop-IsSorted n zero l s h part = λ p q hpq hq. elim (Bool-cases (p == 0)) [
    | inl t ↦ part.bound p q (ground arith) (omega arith) (omega (arith, part.size))
    | inr t ↦ part.tail p q (ground arith) hpq (omega (arith, part.size))
  ]
  extract_loop-IsSorted n (suc i) l s h part =
      and_then-Gives {P = Partial n i} IsSorted
        (sift_down def ask (suc (length l)) (swap 0 (suc i) l) 0 i s) (extract_loop def ask i)
        (Gives-map def ask cmp le order answers
          (sift_down def ask (suc (length l)) (swap 0 (suc i) l) 0 i s)
          (Sifted-Partial n i l h part)
          (sift_down-Sifted def ask cmp le order answers (length l) 0 i 0 (swap 0 (suc i) l) s
            (omega (arith, part.size)) (omega arith)
            (omega (arith, part.size, length-swap 0 (suc i) l)) (swapped-Broken n i l h part)))
        (λ k t p. extract_loop-IsSorted n i k t (omega arith) p)

  heap-Partial : (n : ℕ) (l : List A) → 0 < n → IsHeap n 0 l → Partial n (n - 1) l
  heap-Partial n l h0 (e, h) = record {
    size = e;
    heap = h;
    bound = λ p q hp hq hn. absurd (omega arith);
    tail = λ p q hp hpq hn. absurd (omega arith);
  }

  both-Gives :
      (l : List A) (r : Run S A)
      → Gives def ask cmp le order answers IsSorted r
      → Finishes l r
      → Gives def ask cmp le order answers (λ b. IsSorted b × Perm b l) r
  both-Gives l (done b t) s p = (s, p)
  both-Gives l (failed b t) s p = absurd s
  both-Gives l stuck s p = absurd s

  sorted :
      (l : List A) (s : S) → Gives def ask cmp le order answers IsSorted (array_sort def ask l s)
  unfolding array_sort
  sorted l s = elim (Bool-cases (ltb 1 (length l))) [
    | inr e ↦ rw e (λ p q hp hq. absurd (ground arith))
    | inl e ↦
        let n = length l in
        let some_left : 0 < n = ground arith in
        rw e (
          and_then-Gives IsSorted (heap_loop def ask (n / 2) l s) (extract_loop def ask (n - 1))
            (heap_loop-IsHeap n (n / 2) l s some_left (refl, λ k k0 kb kl. absurd (omega arith)))
            (λ k t p.
              extract_loop-IsSorted n (n - 1) k t (omega arith) (heap-Partial n k some_left p)))
  ]

  -- With a comparison that answers as an order does in every state, sorting succeeds, and the array
  -- is the old one rearranged so that each element is at most every later one.
  pub array_sort-IsSorted :
      (l : List A) (s : S)
      → Gives def ask cmp le order answers (λ b. IsSorted b × Perm b l) (array_sort def ask l s)
  array_sort-IsSorted l s =
      both-Gives l (array_sort def ask l s) (sorted l s) (array_sort-Finishes def ask l s)
