-- ===== src/Array/Each.antt =====
-- `array_map`, `array_reduce` and `array_filter` (sqbaselib.cpp), which call a
-- script function for each element. `call` is that function, a parameter that threads the state of
-- the machine and is `none` where it raises; one that changes the array itself is not modelled.
use sqnim.Array.{create, append}
use sqnim.Prelude.{
  ℕ, suc, ◌≡◌, refl, sym, Bool, Option, none, some, List, [], ◌∷◌, ◌++◌, map, if◌then◌else◌, ◌∙◌,
  append_assoc, append-nil, Bool-cases, inl, inr,
}
use sqnim.Vector.{Vector, size, empty}

-- the elements that a test keeps
abbrev pub kept {ℓ} : {A : Type ℓ} → (A → A) → (A → Bool) → List A → List A
kept real test [] = []
kept real test (a ∷ l) = if test (real a) then real a ∷ kept real test l else kept real test l

module _ {S A : Type 0} (real : A → A) where
  -- `__map_array` from the position `n`: each result takes its element's place
  unfoldable pub map_from : (S → A → ℕ → Option (S × A)) → S → ℕ → List A → Option (S × List A)
  map_from call s n [] = some (s, [])
  map_from call s n (a ∷ l) = elim (call s (real a) n) [
    | none ↦ none
    | some (t, b) ↦ elim (map_from call t (suc n) l) [
      | none ↦ none
      | some (u, bs) ↦ some (u, b ∷ bs)
    ]
  ]

  -- the new array of `array_map`
  unfoldable pub array_map : (S → A → ℕ → Option (S × A)) → A → S → Vector A → Option (S × Vector A)
  unfolding map_from create size
  array_map call def s v = elim (map_from call s 0 v.items) [
    | none ↦ none
    | some (t, l) ↦ some (t, record (create (size v) def) { items = l })
  ]

  unfoldable pub reduce_from : (S → A → A → Option (S × A)) → S → A → List A → Option (S × A)
  reduce_from call s res [] = some (s, res)
  reduce_from call s res (a ∷ l) = elim (call s res (real a)) [
    | none ↦ none
    | some (t, b) ↦ reduce_from call t b l
  ]

  -- the start value is the one given, else the first element; an empty array has no result
  unfoldable pub array_reduce :
      (S → A → A → Option (S × A)) → Option A → S → Vector A → Option (S × Option A)
  unfolding reduce_from
  array_reduce call start s v = elim start [
    | some a ↦ elim (reduce_from call s a v.items) [ none ↦ none | some (t, b) ↦ some (t, some b) ]
    | none ↦ elim v.items [
      | [] ↦ some (s, none)
      | a ∷ l ↦ elim (reduce_from call s (real a) l) [
        | none ↦ none
        | some (t, b) ↦ some (t, some b)
      ]
    ]
  ]

  -- the loop of `array_filter`, with the array built so far; `holds` is the test of `IsFalse`
  unfoldable pub filter_from :
      (S → ℕ → A → Option (S × A)) → (A → Bool) → S → ℕ → List A → Vector A → Option (S × Vector A)
  unfolding append
  filter_from call holds s n [] ret = some (s, ret)
  filter_from call holds s n (a ∷ l) ret = elim (call s n (real a)) [
    | none ↦ none
    | some (t, b) ↦
        filter_from call holds t (suc n) l (if holds b then append (real a) ret else ret)
  ]

  unfoldable pub array_filter :
      (S → ℕ → A → Option (S × A)) → (A → Bool) → S → Vector A → Option (S × Vector A)
  unfolding filter_from empty
  array_filter call holds s v = filter_from call holds s 0 v.items empty

  map_from_pure :
      (call : S → A → ℕ → Option (S × A)) (f : A → A) (s : S) (n : ℕ) (l : List A)
      → ((a : A) (i : ℕ) → call s a i ≡ some (s, f a))
      → map_from call s n l ≡ some (s, map (λ a. f (real a)) l)
  unfolding map_from
  map_from_pure call f s n [] h = refl
  map_from_pure call f s n (a ∷ l) h =
      rw (map_from, h (real a) n, map_from_pure call f s (suc n) l h)

  filter_from_pure :
      (call : S → ℕ → A → Option (S × A)) (f : A → A) (holds : A → Bool) (s : S) (n : ℕ)
      (l : List A) (ret : Vector A)
      → ((a : A) (i : ℕ) → call s i a ≡ some (s, f a))
      → (w : Vector A) × (filter_from call holds s n l ret ≡ some (s, w))
        × (w.items ≡ ret.items ++ kept real (λ a. holds (f a)) l)
  unfolding filter_from append
  filter_from_pure call f holds s n [] ret h = (ret, refl, sym (append-nil ret.items))
  filter_from_pure call f holds s n (a ∷ l) ret h = elim (Bool-cases (holds (f (real a)))) [
    | inl keeps ↦
        let (w, e, i) = filter_from_pure call f holds s (suc n) l (append (real a) ret) h in
        (
          w,
          rw (filter_from, h (real a) n, keeps) e,
          rw keeps (i ∙ append_assoc ret.items (real a ∷ []) (kept real (λ b. holds (f b)) l)),
        )
    | inr drops ↦
        let (w, e, i) = filter_from_pure call f holds s (suc n) l ret h in
        (w, rw (filter_from, h (real a) n, drops) e, rw drops i)
  ]

  -- With functions that neither raise nor depend on anything but the element, `map` gives the
  -- images of the elements, and `filter` the elements whose images hold, both in order and with
  -- weak references followed.
  pub array_map-array_filter :
      (f : A → A) (holds : A → Bool) (on_map : S → A → ℕ → Option (S × A))
      (on_filter : S → ℕ → A → Option (S × A)) (def : A) (s : S) (v : Vector A)
      → ((a : A) (i : ℕ) → on_map s a i ≡ some (s, f a))
      → ((a : A) (i : ℕ) → on_filter s i a ≡ some (s, f a))
      → ((w : Vector A) × (array_map on_map def s v ≡ some (s, w))
          × (w.items ≡ map (λ a. f (real a)) v.items))
        × ((w : Vector A) × (array_filter on_filter holds s v ≡ some (s, w))
            × (w.items ≡ kept real (λ a. holds (f a)) v.items))
  unfolding array_map array_filter
  array_map-array_filter f holds on_map on_filter def s v hm hf = (
    (
      record (create (size v) def) { items = map (λ a. f (real a)) v.items },
      rw (array_map, map_from_pure on_map f s 0 v.items hm),
      refl,
    ),
    filter_from_pure on_filter f holds s 0 v.items empty hf,
  )
