-- ===== src/Array.antt =====
-- `SQArray` (sqarray.h, sqobject.cpp) and the array functions of the API and of the base library
-- (sqapi.cpp, sqbaselib.cpp). An array is its vector; `real` is `_realval`, which follows a weak
-- reference, and `def` is the null that a new slot holds.
pub mod Access
pub mod Each
pub mod Reverse
pub mod Slice
pub mod Sort
use sqnim.Prelude.{
  ℕ, zero, suc, ◌+◌, ◌-◌, ◌*◌, ◌/◌, ◌&&◌, Bool, true, false, Option, none, some, List, [], ◌∷◌,
  ◌++◌, ltb, leb, if◌then◌else◌, length, get_elem?, set, take, drop, replicate, ◌==◌,
}
use sqnim.Prelude.Int.{ℤ, pos, negsuc}
use sqnim.Vector.{
  Vector, empty, size, realloc, resize, shrink_to_fit, push_back, pop_back, top, insert, remove,
  copy,
}

-- the exceptions that the array functions raise
pub data ArrayError : Type 0 where
  index_out_of_range empty_array negative_size size_not_number wrong_indexes slice_out_of_range :
      ArrayError

pub data Result (A : Type 0) : Type 0 where
  ok : A → Result A
  err : ArrayError → Result A

-- the position that a checked index names
abbrev pub index : ℤ → ℕ
index (pos i) = i
index (negsuc i) = 0

module _ {A : Type 0} where
  unfoldable pub create : ℕ → A → Vector A
  unfolding resize empty
  create n def = resize n def empty

  -- `nidx >= 0 && nidx < size`
  unfoldable pub in_bounds : ℤ → Vector A → Bool
  unfolding size
  in_bounds (pos i) v = ltb i (size v)
  in_bounds (negsuc i) v = false

  unfoldable pub get : (A → A) → ℤ → Vector A → Option A
  unfolding in_bounds
  get real i v =
      if in_bounds i v
      then elim (get_elem? v.items (index i)) [ none ↦ none | some a ↦ some (real a) ]
      else none

  -- `none` is the result `false`, which leaves the array as it is
  unfoldable pub put : ℤ → A → Vector A → Option (Vector A)
  unfolding in_bounds
  put i a v = if in_bounds i v then some (record v { items = set v.items (index i) a }) else none

  -- one step of an iteration from a position: the key, the value and the next position
  unfoldable pub next : (A → A) → ℕ → Vector A → Option (ℕ × A × ℕ)
  next real i v = elim (get_elem? v.items i) [ none ↦ none | some a ↦ some (i, real a, suc i) ]

  unfoldable pub shrink_if_needed : Vector A → Vector A
  unfolding shrink_to_fit size
  shrink_if_needed v = if leb (size v) (v.allocated / 4) then shrink_to_fit v else v

  unfoldable pub array_resize : ℕ → A → Vector A → Vector A
  unfolding resize shrink_if_needed
  array_resize n fill v = shrink_if_needed (resize n fill v)

  unfoldable pub append : A → Vector A → Vector A
  unfolding push_back
  append a v = push_back a v

  -- the loop reads the source by position, and the count is fixed before it starts
  unfoldable pub extend : List A → Vector A → Vector A
  unfolding append
  extend [] v = v
  extend (a ∷ l) v = extend l (append a v)

  unfoldable pub array_insert : ℤ → A → A → Vector A → Option (Vector A)
  unfolding insert size
  array_insert (negsuc i) a def v = none
  array_insert (pos i) a def v = if ltb (size v) i then none else some (insert i a def v)

  unfoldable pub array_remove : ℤ → Vector A → Option (Vector A)
  unfolding in_bounds remove shrink_if_needed
  array_remove i v = if in_bounds i v then some (shrink_if_needed (remove (index i) v)) else none

  unfoldable pub clone : Vector A → Vector A
  unfolding copy empty
  clone v = copy v empty

  -- `sq_arraypop`: the popped value and the array left
  unfoldable pub sq_arraypop : Vector A → Result (A × Vector A)
  unfolding top pop_back shrink_if_needed
  sq_arraypop v = elim (top v) [
    | none ↦ err empty_array
    | some a ↦ elim (pop_back v) [ none ↦ err empty_array | some w ↦ ok (a, shrink_if_needed w) ]
  ]

  unfoldable pub sq_arrayresize : ℤ → A → Vector A → Result (Vector A)
  unfolding array_resize
  sq_arrayresize (pos n) def v = ok (array_resize n def v)
  sq_arrayresize (negsuc n) def v = err negative_size

  unfoldable pub sq_arrayinsert : ℤ → A → A → Vector A → Result (Vector A)
  unfolding array_insert
  sq_arrayinsert i a def v = elim (array_insert i a def v) [
    | none ↦ err index_out_of_range
    | some w ↦ ok w
  ]

  unfoldable pub sq_arrayremove : ℤ → Vector A → Result (Vector A)
  unfolding array_remove
  sq_arrayremove i v = elim (array_remove i v) [ none ↦ err index_out_of_range | some w ↦ ok w ]

  -- `array_remove` of the base library: the removed value and the array left
  unfoldable pub remove_value : (A → A) → ℤ → Vector A → Result (A × Vector A)
  unfolding get array_remove
  remove_value real i v = elim (get real i v) [
    | none ↦ err index_out_of_range
    | some a ↦ elim (array_remove i v) [ none ↦ ok (a, v) | some w ↦ ok (a, w) ]
  ]

  -- `array_top` of the base library
  unfoldable pub top_value : Vector A → Result A
  unfolding top
  top_value v = elim (top v) [ none ↦ err empty_array | some a ↦ ok a ]

  -- `array_resize` of the base library; a size that is no number is `none`, and so is a missing
  -- fill, which is null
  unfoldable pub resize_value : Option ℤ → Option A → A → Vector A → Result (Vector A)
  unfolding array_resize
  resize_value none fill def v = err size_not_number
  resize_value (some (negsuc n)) fill def v = err negative_size
  resize_value (some (pos n)) none def v = ok (array_resize n def v)
  resize_value (some (pos n)) (some a) def v = ok (array_resize n a v)

  -- `_Swap(_values[i], _values[j])`
  unfoldable pub swap : ℕ → ℕ → List A → List A
  swap i j l = elim (get_elem? l i) [
    | none ↦ l
    | some a ↦ elim (get_elem? l j) [ none ↦ l | some b ↦ set (set l i b) j a ]
  ]

  -- the loop of `sq_arrayreverse`, with `k` rounds left; `last` is the last index
  unfoldable pub reverse_loop : ℕ → ℕ → ℕ → List A → List A
  unfolding swap
  reverse_loop zero i last l = l
  reverse_loop (suc k) i last l = reverse_loop k (suc i) last (swap i (last - i) l)

  unfoldable pub sq_arrayreverse : Vector A → Vector A
  unfolding reverse_loop size
  sq_arrayreverse v =
      if ltb 0 (size v)
      then record v { items = reverse_loop (size v / 2) 0 (size v - 1) v.items }
      else v

  -- `array_find`: the first position whose value equals the one sought
  unfoldable pub find_from : (A → A) → (A → Bool) → ℕ → List A → Option ℕ
  find_from real same i [] = none
  find_from real same i (a ∷ l) =
      let rest = find_from real same (suc i) l in if same (real a) then some i else rest
