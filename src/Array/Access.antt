-- ===== src/Array/Access.antt =====
-- Reads, writes, insertion and removal, iteration, and the capacity that they leave.
use sqnim.Array.{get, put, next, shrink_if_needed, array_insert, array_remove}
use sqnim.Prelude.Int.{ℤ, pos, negsuc, eqb_ℤ}
use sqnim.Prelude.{
  if◌then◌else◌, ℕ, zero, suc, ◌+◌, ◌*◌, ◌≤◌, ◌<◌, ◌≡◌, ◌≢◌, ◌↔◌, ◌⊎◌, inl, inr, refl, ap, ◌∙◌,
  none, some, List, [], ◌∷◌, ◌++◌, arith, length, get_elem?, take, drop, length-set, get_elem?-set,
  get_elem?-none, drop_all, Option-cases,
}
use sqnim.Vector.Capacity.{IsValid, remove-IsValid, size-insert}
use sqnim.Vector.Moves.{insert_lem, remove_lem}
use sqnim.Vector.{Vector, size, remove, insert}

module _ {A : Type 0} (real : A → A) where
  get-put_iff : (i : ℤ) (a : A) (v : Vector A) → (put i a v ≡ none) ↔ (get real i v ≡ none)
  unfolding get put size
  get-put_iff (pos i) a v = ground (arith, get_elem?-none v.items i)
  get-put_iff (negsuc i) a v = ground arith

  get-put_self :
      (i : ℤ) (a : A) (v w : Vector A) → put i a v ≡ some w → get real i w ≡ some (real a)
  unfolding get put size
  get-put_self (pos i) a v w h = ground (arith, get_elem?-set v.items i i a, length-set v.items i a)
  get-put_self (negsuc i) a v w h = ground arith

  get-put_other :
      (i j : ℤ) (a : A) (v w : Vector A) → put i a v ≡ some w → i ≢ j → get real j w ≡ get real j v
  unfolding get put size
  get-put_other (pos i) (pos j) a v w h n =
      ground (arith, get_elem?-set v.items i j a, length-set v.items i a)
  get-put_other (pos i) (negsuc j) a v w h n = ground arith
  get-put_other (negsuc i) j a v w h n = ground arith

  -- After a write that succeeds its index reads the value written, with a weak reference followed,
  -- and every other index reads what it read before. A write fails exactly where a read does.
  pub get-put :
      (i j : ℤ) (a : A) (v w : Vector A)
      → put i a v ≡ some w
      → ((put j a v ≡ none) ↔ (get real j v ≡ none))
        × (get real j w ≡ (if eqb_ℤ i j then some (real a) else get real j v))
  get-put i j a v w h =
      (get-put_iff j a v, ground (arith, get-put_self i a v w h, get-put_other i j a v w h))

  -- the loop of a client that iterates until there is no next element
  pub iterate : ℕ → ℕ → Vector A → List (ℕ × A)
  unfolding next
  iterate zero i v = []
  iterate (suc f) i v = elim (next real i v) [ none ↦ [] | some (k, a, j) ↦ (k, a) ∷ iterate f j v ]

  pub numbered : ℕ → List A → List (ℕ × A)
  numbered i [] = []
  numbered i (a ∷ l) = (i, real a) ∷ numbered (suc i) l

  drop-get : (l : List A) (i : ℕ) (a : A) → get_elem? l i ≡ some a → drop i l ≡ a ∷ drop (suc i) l
  drop-get [] i a h = cc
  drop-get (x ∷ l) zero a h = ground arith
  drop-get (x ∷ l) (suc i) a h = drop-get l i a h

  iterate-from :
      (f i : ℕ) (v : Vector A)
      → length v.items < f + i
      → iterate f i v ≡ numbered i (drop i v.items)
  unfolding iterate numbered
  iterate-from zero i v h = rw (drop_all i v.items (omega arith))
  iterate-from (suc f) i v h = elim (Option-cases (get_elem? v.items i)) [
    | inl e ↦ rw (e, iterate, drop_all i v.items (get_elem?-none v.items i e))
    | inr (a, e) ↦
        rw (drop-get v.items i a e, e, iterate)
          (ap (◌∷◌ (i, real a)) (iterate-from f (suc i) v (omega arith)))
  ]

  -- A loop that asks for the next element until there is none visits every index once, in order,
  -- with its value.
  pub iterate-numbered : (v : Vector A) → iterate (suc (size v)) 0 v ≡ numbered 0 v.items
  unfolding size
  iterate-numbered v = iterate-from (suc (length v.items)) 0 v (omega arith)

module _ {A : Type 0} where
  items-shrink_if_needed : (v : Vector A) → (shrink_if_needed v).items ≡ v.items
  unfolding shrink_if_needed
  items-shrink_if_needed v = ground arith

  remove_inserted :
      (i : ℕ) (l : List A) (a : A)
      → i ≤ length l
      → take i (take i l ++ a ∷ drop i l) ++ drop (suc i) (take i l ++ a ∷ drop i l) ≡ l
  remove_inserted zero l a h = refl
  remove_inserted (suc i) [] a h = absurd (omega arith)
  remove_inserted (suc i) (x ∷ l) a h = ap (◌∷◌ x) (remove_inserted i l a (omega arith))

  -- Inserting at an index up to the size and removing there again both succeed, and give the
  -- elements back.
  pub array_remove-array_insert :
      (i : ℕ) (a def : A) (v : Vector A)
      → i ≤ size v
      → (w : Vector A) × (u : Vector A) × (array_insert (pos i) a def v ≡ some w)
        × (array_remove (pos i) w ≡ some u)
        × (u.items ≡ v.items)
  unfolding array_insert array_remove size
  array_remove-array_insert i a def v h =
      let w = insert i a def v in
      let grown = size-insert i a def v h in
      (
        w,
        shrink_if_needed (remove i w),
        ground arith,
        ground (arith, size-insert i a def v h),
        items-shrink_if_needed (remove i w)
            ∙ remove_lem i w (omega (arith, grown))
            ∙ rw (insert_lem i a def v h) (remove_inserted i v.items a h),
      )

  -- at most four elements, or a capacity below four times the size
  abbrev pub IsTight : Vector A → Type 0
  IsTight v = (size v ≤ 4) ⊎ (v.allocated < 4 * size v)

  shrink_if_needed_lem :
      (v : Vector A)
      → IsValid v
      → IsValid (shrink_if_needed v)
        × IsTight (shrink_if_needed v)
        × ((shrink_if_needed v).items ≡ v.items)
  unfolding shrink_if_needed
  shrink_if_needed_lem v h = ground arith

  -- A removal that succeeds on a valid vector leaves a valid vector with one element less, whose
  -- capacity is below four times its size unless at most four elements are left.
  pub array_remove-IsTight :
      (i : ℤ) (v w : Vector A)
      → IsValid v
      → array_remove i v ≡ some w
      → IsValid w × IsTight w × (size w + 1 ≡ size v)
  unfolding array_remove size
  array_remove-IsTight (pos i) v w valid e = ground (
    arith,
    remove-IsValid i v,
    shrink_if_needed_lem (remove i v),
    ap length (items-shrink_if_needed (remove i v)),
  )
  array_remove-IsTight (negsuc i) v w valid e = ground arith
