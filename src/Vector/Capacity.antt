-- ===== src/Vector/Capacity.antt =====
-- The capacity covers the elements, and falls back with them.
use sqnim.Prelude.{
  ℕ, suc, ◌+◌, ◌-◌, ◌≤◌, ◌<◌, ◌≡◌, some, [], ◌∷◌, arith, length, take, drop, replicate,
  length-append, length-take, length-drop, length-replicate,
}
use sqnim.Vector.Moves.{insert_lem}
use sqnim.Vector.{Vector, empty, size, resize, shrink_to_fit, push_back, pop_back, insert, remove}

module _ {A : Type 0} where
  -- the elements stand in allocated memory
  pub record IsValid (v : Vector A) : Type 0 where
    pub room : length v.items ≤ v.allocated

  pub empty-IsValid : IsValid empty
  unfolding empty
  empty-IsValid = record { room = omega arith }

  pub resize-IsValid : (n : ℕ) (fill : A) (v : Vector A) → IsValid v → IsValid (resize n fill v)
  unfolding resize
  resize-IsValid n fill v h = ground (
    arith,
    length-append v.items (replicate (n - length v.items) fill),
    length-replicate (n - length v.items) fill,
    length-take n v.items,
  )

  pub size-resize : (n : ℕ) (fill : A) (v : Vector A) → size (resize n fill v) ≡ n
  unfolding resize size
  size-resize n fill v = ground (
    arith,
    length-append v.items (replicate (n - length v.items) fill),
    length-replicate (n - length v.items) fill,
    length-take n v.items,
  )

  pub push_back-IsValid : (a : A) (v : Vector A) → IsValid v → IsValid (push_back a v)
  unfolding push_back
  push_back-IsValid a v h = ground (arith, length-append v.items (a ∷ []))

  pub shrink_to_fit-IsValid : (v : Vector A) → IsValid v → IsValid (shrink_to_fit v)
  unfolding shrink_to_fit
  shrink_to_fit-IsValid v h = ground arith

  pub pop_back-IsValid :
      (v w : Vector A) → IsValid v → pop_back v ≡ some w → IsValid w × (size w + 1 ≡ size v)
  unfolding pop_back size
  pop_back-IsValid v w h e = ground (arith, length-take (length v.items - 1) v.items)

  allocated-insert :
      (idx : ℕ) (a def : A) (v : Vector A)
      → IsValid v
      → length v.items + 1 ≤ (insert idx a def v).allocated
  unfolding insert
  allocated-insert idx a def v h = ground arith

  pub size-insert :
      (idx : ℕ) (a def : A) (v : Vector A) → idx ≤ size v → size (insert idx a def v) ≡ size v + 1
  unfolding size
  size-insert idx a def v h =
      rw (insert_lem idx a def v (unfold size in h), length-append)
        (omega (arith, length-take idx v.items, length-drop idx v.items))

  -- Inserting at a place up to the size of a vector whose elements stand in allocated memory
  -- keeps them there and adds one.
  pub insert-IsValid :
      (idx : ℕ) (a def : A) (v : Vector A)
      → idx ≤ size v
      → IsValid v
      → IsValid (insert idx a def v) × (size (insert idx a def v) ≡ size v + 1)
  unfolding size
  insert-IsValid idx a def v h valid = (
    record { room = omega (arith, allocated-insert idx a def v valid, size-insert idx a def v h) },
    size-insert idx a def v h,
  )

  -- Removing below the size of such a vector keeps the elements in allocated memory, takes one
  -- away, and leaves the capacity as it is.
  pub remove-IsValid :
      (idx : ℕ) (v : Vector A)
      → idx < size v
      → IsValid v
      → IsValid (remove idx v)
        × (size (remove idx v) + 1 ≡ size v)
        × ((remove idx v).allocated ≡ v.allocated)
  unfolding size remove
  remove-IsValid idx v h valid = ground (
    arith,
    length-append (take idx v.items) (drop (suc idx) v.items),
    length-take idx v.items,
    length-drop (suc idx) v.items,
    length-take (length v.items - 1) v.items,
  )
