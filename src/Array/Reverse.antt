-- ===== src/Array/Reverse.antt =====
-- `sq_arrayreverse` and `_Swap`.
use sqnim.Array.{swap, reverse_loop, sq_arrayreverse}
use sqnim.Prelude.{
  ℕ, zero, suc, ◌+◌, ◌-◌, ◌/◌, ◌≤◌, ◌<◌, ◌≡◌, refl, ◌∙◌, ◌&&◌, List, arith, length, get_elem?, set,
  length-set, if◌then◌else◌, ltb, leb, ◌==◌, get_elem?-set, get_elem?_in, Option-cases, inl, inr,
}
use sqnim.Vector.{Vector, size}

module _ {A : Type 0} where
  pub length-swap : (i j : ℕ) (l : List A) → length (swap i j l) ≡ length l
  unfolding swap
  length-swap i j l = elim (Option-cases (get_elem? l i)) [
    | inl e ↦ rw (e, swap)
    | inr (a, e) ↦ elim (Option-cases (get_elem? l j)) [
      | inl f ↦ rw (e, swap, f)
      | inr (b, f) ↦ rw (e, swap, f) (length-set (set l i b) j a ∙ length-set l i b)
    ]
  ]

  pub get_elem?-swap :
      (i j : ℕ) (l : List A) (q : ℕ)
      → i < length l
      → j < length l
      → get_elem? (swap i j l) q
        ≡ (if q == j then get_elem? l i else if q == i then get_elem? l j else get_elem? l q)
  unfolding swap
  get_elem?-swap i j l q hi hj =
      let (a, ea) = get_elem?_in l i hi in
      let (b, eb) = get_elem?_in l j hj in
      rw (ea, swap, eb)
        (ground (arith, get_elem?-set (set l i b) j q a, get_elem?-set l i q b, length-set l i b))

  reverse_loop_reads :
      (k i last : ℕ) (l : List A) (q : ℕ)
      → length l ≡ suc last
      → i + k + i + k ≤ suc last
      → get_elem? (reverse_loop k i last l) q ≡ (
          if leb i q && ltb q (i + k)
          then get_elem? l (last - q)
          else if ltb (last - (i + k)) q && leb q (last - i)
          then get_elem? l (last - q)
          else get_elem? l q)
  unfolding reverse_loop
  reverse_loop_reads zero i last l q n h = ground arith
  reverse_loop_reads (suc k) i last l q n h = ground (
    arith,
    length-swap i (last - i) l,
    reverse_loop_reads k (suc i) last (swap i (last - i) l) q,
    get_elem?-swap i (last - i) l q,
    get_elem?-swap i (last - i) l (last - q),
  )

  length-reverse_loop : (k i last : ℕ) (l : List A) → length (reverse_loop k i last l) ≡ length l
  unfolding reverse_loop
  length-reverse_loop zero i last l = refl
  length-reverse_loop (suc k) i last l =
      length-reverse_loop k (suc i) last _ ∙ length-swap i (last - i) l

  -- Reversing keeps the size and puts at each place the element that stood at the mirrored one.
  pub sq_arrayreverse_reads :
      (v : Vector A) (q : ℕ)
      → q < size v
      → (size (sq_arrayreverse v) ≡ size v)
        × (get_elem? (sq_arrayreverse v).items q ≡ get_elem? v.items (size v - 1 - q))
  unfolding sq_arrayreverse size
  sq_arrayreverse_reads v q h =
      let n = length v.items in
      (
        ground (arith, length-reverse_loop (n / 2) 0 (n - 1) v.items),
        ground (arith, reverse_loop_reads (n / 2) 0 (n - 1) v.items q),
      )
