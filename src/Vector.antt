-- ===== src/Vector.antt =====
-- `sqvector` (squtils.h), the growable vector under arrays, stacks and compiler buffers.
-- `items` are the constructed elements, so `_size` is their number; `allocated` is the capacity.
-- Sizes stay below the machine's memory, so no size or capacity wraps.
pub mod Moves
pub mod Capacity
use sqnim.Prelude.{
  ℕ, zero, suc, ◌+◌, ◌-◌, ◌*◌, Bool, Option, none, some, List, [], ◌∷◌, ◌++◌, ltb, leb,
  if◌then◌else◌, length, get_elem?, set, take, drop, replicate,
}

pub record Vector {ℓ} (A : Type ℓ) : Type ℓ where
  pub items : List A
  pub allocated : ℕ

module _ {ℓ} {A : Type ℓ} where
  unfoldable pub empty : Vector A
  empty = record { items = []; allocated = 0 }

  unfoldable pub size : Vector A → ℕ
  size v = length v.items

  unfoldable pub realloc : ℕ → Vector A → Vector A
  realloc n v = record v { allocated = if ltb 0 n then n else 4 }

  unfoldable pub reserve : ℕ → Vector A → Vector A
  unfolding realloc
  reserve n v = realloc n v

  abbrev pub ensure : ℕ → Vector A → Vector A
  ensure n v = if ltb v.allocated n then realloc n v else v

  unfoldable pub resize : ℕ → A → Vector A → Vector A
  unfolding realloc size
  resize n fill v =
      let room = ensure n v in
      if ltb (size v) n
      then record room { items = v.items ++ replicate (n - size v) fill }
      else record room { items = take n v.items }

  unfoldable pub shrink_to_fit : Vector A → Vector A
  unfolding realloc size
  shrink_to_fit v = if ltb 4 (size v) then realloc (size v) v else v

  unfoldable pub push_back : A → Vector A → Vector A
  unfolding realloc size
  push_back a v =
      let room = if leb v.allocated (size v) then realloc (size v * 2) v else v in
      record room { items = v.items ++ a ∷ [] }

  -- `none` is an access before the first element, which the code does not guard
  unfoldable pub top : Vector A → Option A
  unfolding size
  top v = if ltb 0 (size v) then get_elem? v.items (size v - 1) else none

  unfoldable pub pop_back : Vector A → Option (Vector A)
  unfolding size
  pop_back v =
      if ltb 0 (size v) then some (record v { items = take (size v - 1) v.items }) else none

  -- `_vals[i] = _vals[j]`
  unfoldable pub assign_at : ℕ → ℕ → List A → List A
  assign_at i j l = elim (get_elem? l j) [ none ↦ l | some a ↦ set l i a ]

  -- `for (i = _size - 1; i > idx; i--) _vals[i] = _vals[i - 1]`, with `k` rounds left:
  -- the next one writes at `idx + k`
  unfoldable pub shift_up : ℕ → ℕ → List A → List A
  unfolding assign_at
  shift_up zero idx l = l
  shift_up (suc k) idx l = shift_up k idx (assign_at (suc k + idx) (k + idx) l)

  -- `idx` is at most the size; `T()` is the value that the new place has at first
  unfoldable pub insert : ℕ → A → A → Vector A → Vector A
  unfolding resize shift_up size
  insert idx a def v =
      let w = resize (size v + 1) def v in
      record w { items = set (shift_up (size w - 1 - idx) idx w.items) idx a }

  -- `memmove` over the removed element; `idx` is below the size
  unfoldable pub remove : ℕ → Vector A → Vector A
  unfolding size
  remove idx v = record v {
    items =
        if ltb idx (size v - 1)
        then take idx v.items ++ drop (suc idx) v.items
        else take (size v - 1) v.items;
  }

  -- `copy`, called on a constructed vector
  unfoldable pub copy : Vector A → Vector A → Vector A
  unfolding realloc size
  copy source v =
      let room = if ltb v.allocated (size source) then realloc (size source) v else v in
      record room { items = source.items }
