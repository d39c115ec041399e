-- ===== src/Array/Sort.antt =====
-- `_hsort_sift_down`, `_hsort` and `array_sort` (sqbaselib.cpp): heap sort over a comparison that
-- may fail, `ObjCmp` or a script function. `ask s a b` is what the comparison answers in the state
-- `s`, `none` where the code raises, and the state that it leaves: a script function may answer
-- differently when it is asked again. One that changes the array while it is sorted is not modelled.
pub mod Shuffle
pub mod Order
pub mod Heap
pub mod Sorted
pub mod Integers
use sqnim.Array.{swap}
use sqnim.Prelude.Int.{ℤ, pos, negsuc, ltb_ℤ}
use sqnim.Prelude.{
  ℕ, zero, suc, ◌+◌, ◌-◌, ◌*◌, ◌/◌, Bool, true, false, Option, none, some, List, ◌==◌, ltb, leb,
  if◌then◌else◌, length, get_or,
}

-- a run ends with the array sorted as asked or with an exception half way; `stuck` is a loop that
-- its fuel does not cover
pub data Run (S A : Type 0) : Type 0 where
  done : List A → S → Run S A
  failed : List A → S → Run S A
  stuck : Run S A

-- `if (!…) return false;`
abbrev pub and_then : {S A : Type 0} → Run S A → (List A → S → Run S A) → Run S A
and_then stuck next = stuck
and_then (failed l s) next = failed l s
and_then (done l s) next = next l s

module _ {S A : Type 0} (def : A) (ask : S → A → A → Option ℤ × S) where
  abbrev pub at : List A → ℕ → A
  at l i = get_or l i def

  -- the child to compare with: `none` if the comparison fails
  unfoldable pub max_child : List A → ℕ → ℕ → S → Option ℕ × S
  max_child l root2 bottom s =
      if root2 == bottom
      then (some root2, s)
      else let (answer, s') = ask s (at l root2) (at l (root2 + 1)) in
        (
          elim answer [
            | none ↦ none
            | some r ↦ some (if ltb_ℤ (pos 0) r then root2 else root2 + 1)
          ],
          s',
        )

  -- the comparison of the root with this child and what it leads to
  unfoldable pub sift_child : List A → ℕ → S → (ℕ → S → Run S A) → ℕ → Run S A
  sift_child l root s rest m =
      let (answer, s') = ask s (at l root) (at l m) in
      elim answer [
        | none ↦ failed l s'
        | some r ↦
            if ltb_ℤ r (pos 0) then (if root == m then failed l s' else rest m s') else done l s'
      ]

  -- one round of the loop; `rest m` goes on from the child `m` after the swap
  unfoldable pub sift_step : List A → ℕ → ℕ → S → (ℕ → S → Run S A) → Run S A
  unfolding max_child sift_child
  sift_step l root bottom s rest =
      if leb (root * 2) bottom
      then (let (child, s') = max_child l (root * 2) bottom s in
          elim child [ none ↦ failed l s' | some m ↦ sift_child l root s' rest m ])
      else done l s

  unfoldable pub sift_down : ℕ → List A → ℕ → ℕ → S → Run S A
  unfolding sift_step swap
  sift_down zero l root bottom s = stuck
  sift_down (suc f) l root bottom s =
      sift_step l root bottom s (λ m s'. sift_down f (swap root m l) m bottom s')

  -- `for (i = array_size / 2; i >= 0; i--)`
  unfoldable pub heap_loop : ℕ → List A → S → Run S A
  unfolding sift_down
  heap_loop zero l s = sift_down (suc (length l)) l 0 (length l - 1) s
  heap_loop (suc i) l s =
      and_then (sift_down (suc (length l)) l (suc i) (length l - 1) s) (heap_loop i)

  -- `for (i = array_size - 1; i >= 1; i--)`
  unfoldable pub extract_loop : ℕ → List A → S → Run S A
  unfolding sift_down swap
  extract_loop zero l s = done l s
  extract_loop (suc i) l s =
      and_then (sift_down (suc (length l)) (swap 0 (suc i) l) 0 i s) (extract_loop i)

  unfoldable pub hsort : List A → S → Run S A
  unfolding heap_loop extract_loop
  hsort l s = and_then (heap_loop (length l / 2) l s) (extract_loop (length l - 1))

  unfoldable pub array_sort : List A → S → Run S A
  unfolding hsort
  array_sort l s = if ltb 1 (length l) then hsort l s else done l s
