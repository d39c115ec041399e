-- ===== src/Tests/Arrays.antt =====
-- Vectors and arrays.
use sqnim.Array.Access.{array_remove-array_insert}
use sqnim.Array.Reverse.{sq_arrayreverse_reads}
use sqnim.Array.Slice.{slice_bounds, array_slice, array_slice_lem}
use sqnim.Array.Sort.Heap.{Gives}
use sqnim.Array.Sort.Integers.{compare_integers, compare_integers-IsOrder}
use sqnim.Array.Sort.Order.{IsOrder}
use sqnim.Array.Sort.Shuffle.{Finishes, array_sort-Finishes}
use sqnim.Array.Sort.Sorted.{IsSorted, array_sort-IsSorted}
use sqnim.Array.Sort.{array_sort}
use sqnim.Array.{ok, array_insert, array_remove, sq_arrayreverse}
use sqnim.Prelude.Int.{ℤ, pos, negsuc, ◌≤ℤ◌}
use sqnim.Prelude.{
  Bool, true, not, if◌then◌else◌, ltb, ℕ, ◌≡◌, refl, List, [], ◌∷◌, map, take, drop, some, arith,
  get_elem?, ◌+◌, ◌-◌, Option,
}
use sqnim.Tests.Samples.{sample_ops, no_meta}
use sqnim.Vector.Capacity.{IsValid}
use sqnim.Vector.Moves.{insert_lem}
use sqnim.Vector.{Vector, size, insert}
use mathlib.Core.List.{Perm}

abbrev numbers : List ℕ
numbers = 10 ∷ 20 ∷ 30 ∷ []

abbrev sample : Vector ℕ
sample = record { items = numbers; allocated = 4 }

sample-IsValid : IsValid sample
sample-IsValid = record { room = omega arith }

abbrev same : ℕ → ℕ
same n = n

abbrev integers : List ℤ
integers = pos 3 ∷ negsuc 4 ∷ pos 1 ∷ []

abbrev compare : ℤ → ℤ → Option ℤ
compare = compare_integers sample_ops no_meta

compare_integers-IsOrder_example : IsOrder compare ◌≤ℤ◌
compare_integers-IsOrder_example = compare_integers-IsOrder sample_ops no_meta

-- a comparison whose answers turn with every question
abbrev fickle : Bool → ℤ → ℤ → Option ℤ × Bool
fickle s a b = (if s then compare a b else compare b a, not s)

array_sort-Finishes_example : Finishes integers (array_sort (pos 0) fickle integers true)
array_sort-Finishes_example = array_sort-Finishes (pos 0) fickle integers true

-- the default comparison, beside a count of the questions
abbrev counting : ℕ → ℤ → ℤ → Option ℤ × ℕ
counting n a b = (compare a b, n + 1)

array_sort-IsSorted_example :
    Gives
      (pos 0)
      counting
      compare
      ◌≤ℤ◌
      (compare_integers-IsOrder sample_ops no_meta)
      (λ n a b. refl)
      (λ l.
        IsSorted
          (pos 0)
          counting
          compare
          ◌≤ℤ◌
          (compare_integers-IsOrder sample_ops no_meta)
          (λ n a b. refl)
          l
        × Perm l integers)
      (array_sort (pos 0) counting integers 0)
array_sort-IsSorted_example =
    array_sort-IsSorted (pos 0) counting compare ◌≤ℤ◌ (compare_integers-IsOrder sample_ops no_meta)
      (λ n a b. refl) integers 0

insert_lem_example : (insert 1 15 0 sample).items ≡ 10 ∷ 15 ∷ 20 ∷ 30 ∷ []
insert_lem_example = insert_lem 1 15 0 sample (unfold size in omega arith)

array_remove-array_insert_example :
    (w : Vector ℕ) × (u : Vector ℕ) × (array_insert (pos 1) 15 0 sample ≡ some w)
    × (array_remove (pos 1) w ≡ some u)
    × (u.items ≡ numbers)
array_remove-array_insert_example =
    array_remove-array_insert 1 15 0 sample (unfold size in omega arith)

sq_arrayreverse_reads_example :
    (size (sq_arrayreverse sample) ≡ size sample)
    × (get_elem? (sq_arrayreverse sample).items 0 ≡ get_elem? numbers (size sample - 1 - 0))
sq_arrayreverse_reads_example = sq_arrayreverse_reads sample 0 (unfold size in omega arith)

array_slice_lem_example :
    (w : Vector ℕ) × (array_slice same 0 (pos 1) (negsuc 0) sample ≡ ok w)
    × (w.items ≡ map same (take (2 - 1) (drop 1 numbers)))
array_slice_lem_example =
    array_slice_lem same 0 (pos 1) (negsuc 0) sample {a = 1} {b = 2}
      (unfold slice_bounds size in refl)

abbrev next_number : ℕ → ℕ
next_number n = n + 1

abbrev on_map : ℕ → ℕ → ℕ → Option (ℕ × ℕ)
on_map s a i = some (s, next_number a)

abbrev on_filter : ℕ → ℕ → ℕ → Option (ℕ × ℕ)
on_filter s i a = some (s, next_number a)

abbrev small : ℕ → Bool
small n = ltb n 25
