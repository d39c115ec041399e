-- ===== src/Vector/Moves.antt =====
-- What the moves of elements amount to.
use sqnim.Prelude.{
  ℕ, zero, suc, ◌+◌, ◌-◌, ◌≤◌, ◌<◌, ◌≡◌, refl, ◌&&◌, some, List, [], ◌∷◌, ◌++◌, arith, length,
  get_elem?, set, take, drop, length-append, length-set, length-take, lt→ltb, Bool-cases, sym,
  append-nil, get_elem?-cons, drop_all, if◌then◌else◌, ltb, leb, ◌==◌, ext, get_elem?-append,
  Option-cases, inl, inr, ◌∙◌, get_elem?-set, get_elem?-take, get_elem?-drop, get_elem?_in,
  get_elem?_out,
}
use sqnim.Vector.{Vector, size, resize, shift_up, assign_at, insert, remove}

module _ {A : Type 0} where
  pub get_elem?-assign_at :
      (i j : ℕ) (l : List A) (q : ℕ)
      → j < length l
      → get_elem? (assign_at i j l) q
        ≡ (if i == q && ltb i (length l) then get_elem? l j else get_elem? l q)
  unfolding assign_at
  get_elem?-assign_at i j l q h =
      let (a, e) = get_elem?_in l j h in rw (e, assign_at) (get_elem?-set l i q a)

  length-assign_at : (i j : ℕ) (l : List A) → length (assign_at i j l) ≡ length l
  unfolding assign_at
  length-assign_at i j l = elim (Option-cases (get_elem? l j)) [
    | inl e ↦ rw (e, assign_at)
    | inr (a, e) ↦ rw (e, assign_at) (length-set l i a)
  ]

  pub length-shift_up : (k idx : ℕ) (l : List A) → length (shift_up k idx l) ≡ length l
  unfolding shift_up
  length-shift_up zero idx l = refl
  length-shift_up (suc k) idx l = length-shift_up k idx _ ∙ length-assign_at _ _ l

  pub get_elem?-shift_up :
      (k idx : ℕ) (l : List A) (q : ℕ)
      → k + idx < length l
      → get_elem? (shift_up k idx l) q
        ≡ (if ltb idx q && leb q (k + idx) then get_elem? l (q - 1) else get_elem? l q)
  unfolding shift_up
  get_elem?-shift_up zero idx l q h = ground arith
  get_elem?-shift_up (suc k) idx l q h =
      let l' = assign_at (suc k + idx) (k + idx) l in
      ground (
        arith,
        length-assign_at (suc k + idx) (k + idx) l,
        get_elem?-shift_up k idx l' q,
        get_elem?-assign_at (suc k + idx) (k + idx) l q,
        get_elem?-assign_at (suc k + idx) (k + idx) l (q - 1),
      )

  resize_one : (def : A) (v : Vector A) → (resize (size v + 1) def v).items ≡ v.items ++ def ∷ []
  unfolding resize
  resize_one def v =
      let one : length v.items + 1 - length v.items ≡ 1 = omega arith in
      rw (lt→ltb (length v.items) (length v.items + 1) (omega arith), one)

  inserted_reads :
      (idx : ℕ) (a : A) (l : List A) (i : ℕ)
      → idx ≤ length l
      → get_elem? (take idx l ++ a ∷ drop idx l) i
        ≡ (if ltb i idx then get_elem? l i else if i == idx then some a else get_elem? l (i - 1))
  inserted_reads idx a l i h = ground (
    arith,
    get_elem?-append (take idx l) (a ∷ drop idx l) i,
    length-take idx l,
    get_elem?-take idx l i,
    get_elem?-cons a (drop idx l) (i - idx),
    get_elem?-drop idx l (i - idx - 1),
  )

  shifted_reads :
      (idx : ℕ) (a def : A) (l : List A) (i : ℕ)
      → idx ≤ length l
      → get_elem? (set (shift_up (length l - idx) idx (l ++ def ∷ [])) idx a) i
        ≡ (if ltb i idx then get_elem? l i else if i == idx then some a else get_elem? l (i - 1))
  shifted_reads idx a def l i h =
      let l' = l ++ def ∷ [] in
      let k = length l - idx in
      ground (
        arith,
        length-append l (def ∷ []),
        length-shift_up k idx l',
        get_elem?-set (shift_up k idx l') idx i a,
        get_elem?-shift_up k idx l' i,
        get_elem?-append l (def ∷ []) i,
        get_elem?-append l (def ∷ []) (i - 1),
        get_elem?_out l (i - 1),
        get_elem?_out (def ∷ []) (i - length l),
      )

  -- Inserting at a place up to the size puts the element there, keeps what stands before it and
  -- moves the rest up by one.
  pub insert_lem :
      (idx : ℕ) (a def : A) (v : Vector A)
      → idx ≤ size v
      → (insert idx a def v).items ≡ take idx v.items ++ a ∷ drop idx v.items
  unfolding insert size
  insert_lem idx a def v h =
      let one : length v.items + 1 - 1 - idx ≡ length v.items - idx = omega arith in
      rw (resize_one def v, length-append, one)
        (ext _ _ λ i. shifted_reads idx a def v.items i h ∙ sym (inserted_reads idx a v.items i h))

  -- Removing below the size leaves what stands before and after the element.
  pub remove_lem :
      (idx : ℕ) (v : Vector A)
      → idx < size v
      → (remove idx v).items ≡ take idx v.items ++ drop (suc idx) v.items
  unfolding remove size
  remove_lem idx v h = elim (Bool-cases (ltb idx (size v - 1))) [
    | inl e ↦ rw e
    | inr e ↦
        let last : size v - 1 ≡ idx = ground arith in
        rw (e, last, drop_all (suc idx) v.items (omega arith), append-nil)
  ]
