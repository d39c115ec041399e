-- ===== src/Array/Sort/Order.antt =====
-- What sorting asks of a comparison, and reads of an array around a swap.
use sqnim.Array.Reverse.{get_elem?-swap, length-swap}
use sqnim.Array.{swap}
use sqnim.Prelude.Int.{ℤ, pos, ltb_ℤ}
use sqnim.Prelude.{
  ℕ, zero, suc, ◌≤◌, ◌<◌, ◌≡◌, ◌≢◌, inl, inr, refl, sym, ◌∙◌, true, false, Option, some, List, [],
  ◌∷◌, arith, length, get_elem?, get_or, Bool-cases, get_elem?_in, ltb,
}

-- What a comparison has to be for the array to come out sorted: it never fails, its sign puts two
-- elements in the order `le`, no element is below itself, and the order is transitive.
pub record IsOrder {A : Type 0} (cmp : A → A → Option ℤ) (le : A → A → Type 0) : Type 0 where
  pub defined : (a b : A) → (r : ℤ) × (cmp a b ≡ some r)
  pub low : (a b : A) (r : ℤ) → cmp a b ≡ some r → ltb_ℤ (pos 0) r ≡ false → le a b
  pub high : (a b : A) (r : ℤ) → cmp a b ≡ some r → ltb_ℤ r (pos 0) ≡ false → le b a
  pub self : (a : A) (r : ℤ) → cmp a a ≡ some r → ltb_ℤ r (pos 0) ≡ false
  pub le_trans : (a b c : A) → le a b → le b c → le a c

get_or-get_elem? :
    {A : Type 0} (l : List A) (i : ℕ) (d a : A) → get_elem? l i ≡ some a → get_or l i d ≡ a
get_or-get_elem? [] i d a h = cc
get_or-get_elem? (x ∷ l) zero d a h = cc
get_or-get_elem? (x ∷ l) (suc i) d a h = get_or-get_elem? l i d a h

pub not_above : (r : ℤ) → ltb_ℤ r (pos 0) ≡ true → ltb_ℤ (pos 0) r ≡ false
not_above r h = ground arith

pub not_below : (r : ℤ) → ltb_ℤ (pos 0) r ≡ true → ltb_ℤ r (pos 0) ≡ false
not_below r h = ground arith

get_or-congr :
    {A : Type 0} (k l : List A) (i j : ℕ) (d : A)
    → j < length l
    → get_elem? k i ≡ get_elem? l j
    → get_or k i d ≡ get_or l j d
get_or-congr k l i j d h e =
    let (a, f) = get_elem?_in l j h in
    get_or-get_elem? k i d a (e ∙ f) ∙ sym (get_or-get_elem? l j d a f)

get_or_out : {A : Type 0} (l : List A) (i : ℕ) (d : A) → length l ≤ i → get_or l i d ≡ d
get_or_out [] i d h = refl
get_or_out (x ∷ l) zero d h = absurd (omega arith)
get_or_out (x ∷ l) (suc i) d h = get_or_out l i d (omega arith)

module _ {A : Type 0} (l : List A) (i j : ℕ) (d : A) (hi : i < length l) (hj : j < length l) where
  pub at-swap_left : i ≢ j → get_or (swap i j l) i d ≡ get_or l j d
  at-swap_left n =
      get_or-congr (swap i j l) l i j d hj (ground (arith, get_elem?-swap i j l i hi hj))

  pub at-swap_right : get_or (swap i j l) j d ≡ get_or l i d
  at-swap_right =
      get_or-congr (swap i j l) l j i d hi (ground (arith, get_elem?-swap i j l j hi hj))

  pub at-swap_other : (q : ℕ) → q ≢ i → q ≢ j → get_or (swap i j l) q d ≡ get_or l q d
  at-swap_other q ni nj = elim (Bool-cases (ltb q (length l))) [
    | inl e ↦
        get_or-congr (swap i j l) l q q d (ground arith)
          (ground (arith, get_elem?-swap i j l q hi hj))
    | inr e ↦
        get_or_out (swap i j l) q d (ground (arith, length-swap i j l))
        ∙ sym (get_or_out l q d (ground arith))
  ]
