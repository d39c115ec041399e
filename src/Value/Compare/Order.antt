-- ===== src/Value/Compare/Order.antt =====
-- `ObjCmp` and `CMP_OP` on values of one type.
use sqnim.Prelude.{
  ℕ, zero, suc, ◌≡◌, refl, ap, ◌∙◌, ◌↔◌, true, Option, List, [], ◌∷◌, if◌then◌else◌, arith,
  Bool-cases, inl, inr, not,
}
use sqnim.Prelude.Int.{ℤ, pos, negsuc, ltb_ℤ, eqb_ℤ, ◌≤ℤ◌}
use sqnim.Value.Float.{FloatOps}
use sqnim.Value.Compare.{
  Result, ok, strcmp, eq_bytes, obj_cmp, cmp_op, cmp_g, cmp_ge, cmp_l, cmp_le, cmp_3w,
}
use sqnim.Value.{Value, integer, string, boolean}

abbrev pub negate : ℤ → ℤ
negate (pos n) = elim n [ zero ↦ pos 0 | suc m ↦ negsuc m ]
negate (negsuc n) = pos (suc n)

strcmp-negate : (s t : List ℕ) → strcmp t s ≡ negate (strcmp s t)
unfolding strcmp
strcmp-negate [] [] = refl
strcmp-negate [] (d ∷ t) = ground arith
strcmp-negate (c ∷ s) [] = ground arith
strcmp-negate (c ∷ s) (d ∷ t) = ground (arith, strcmp-negate s t)

eq_bytes_comm : (s t : List ℕ) → eq_bytes t s ≡ eq_bytes s t
unfolding eq_bytes
eq_bytes_comm [] [] = refl
eq_bytes_comm [] (d ∷ t) = refl
eq_bytes_comm (c ∷ s) [] = refl
eq_bytes_comm (c ∷ s) (d ∷ t) = ground (arith, eq_bytes_comm s t)

strcmp_of_eq_bytes : (s t : List ℕ) → eq_bytes s t ≡ true → strcmp s t ≡ pos 0
unfolding strcmp eq_bytes
strcmp_of_eq_bytes [] [] h = refl
strcmp_of_eq_bytes [] (d ∷ t) h = ground arith
strcmp_of_eq_bytes (c ∷ s) [] h = ground arith
strcmp_of_eq_bytes (c ∷ s) (d ∷ t) h = ground (arith, strcmp_of_eq_bytes s t)

strcmp_trans : (s t u : List ℕ) → strcmp s t ≤ℤ pos 0 → strcmp t u ≤ℤ pos 0 → strcmp s u ≤ℤ pos 0
unfolding strcmp
strcmp_trans [] t [] p q = ground arith
strcmp_trans [] t (e ∷ u) p q = ground arith
strcmp_trans (c ∷ s) [] [] p q = ground arith
strcmp_trans (c ∷ s) [] (e ∷ u) p q = ground arith
strcmp_trans (c ∷ s) (d ∷ t) [] p q = ground (arith, strcmp_trans s t [])
strcmp_trans (c ∷ s) (d ∷ t) (e ∷ u) p q = ground (arith, strcmp_trans s t u)

-- What `ObjCmp` gives for two strings, whatever branch it takes.
string_order-strcmp : (s t : List ℕ) → (if eq_bytes s t then pos 0 else strcmp s t) ≡ strcmp s t
string_order-strcmp s t = elim (Bool-cases (eq_bytes s t)) [
  | inl e ↦ rw (e, strcmp_of_eq_bytes s t e)
  | inr e ↦ rw e
]

module _ (ops : FloatOps) (meta : Value ops.F → Value ops.F → Option (Result (Value ops.F))) where
  -- The comparison of two integers succeeds, with a result that is negative, zero or positive
  -- exactly as the first is less than, equal to or greater than the second.
  pub obj_cmp-integer :
      (i j : ℤ)
      → (r : ℤ) × (obj_cmp ops meta (integer i) (integer j) ≡ ok r)
        × (ltb_ℤ r (pos 0) ≡ ltb_ℤ i j)
        × (ltb_ℤ (pos 0) r ≡ ltb_ℤ j i)
        × ((r ≡ pos 0) ↔ (i ≡ j))
  unfolding obj_cmp
  obj_cmp-integer i j = (
    if eqb_ℤ i j then pos 0 else if ltb_ℤ i j then negsuc 0 else pos 1,
    refl,
    ground arith,
    ground arith,
    ground arith,
  )

  obj_cmp-strcmp : (s t : List ℕ) → obj_cmp ops meta (string s) (string t) ≡ ok (strcmp s t)
  unfolding obj_cmp
  obj_cmp-strcmp s t = ap ok (string_order-strcmp s t)

  -- Strings are always comparable, and swapping them negates the result.
  pub obj_cmp-string-negate :
      (s t : List ℕ)
      → (r : ℤ) × (obj_cmp ops meta (string s) (string t) ≡ ok r)
        × (obj_cmp ops meta (string t) (string s) ≡ ok (negate r))
  obj_cmp-string-negate s t =
      (strcmp s t, obj_cmp-strcmp s t, obj_cmp-strcmp t s ∙ ap ok (strcmp-negate s t))

  -- If the comparison puts `s` at or before `t`, and `t` at or before `u`, it puts `s` at or
  -- before `u`.
  pub obj_cmp-string_trans :
      (s t u : List ℕ) {p q : ℤ}
      → obj_cmp ops meta (string s) (string t) ≡ ok p
      → obj_cmp ops meta (string t) (string u) ≡ ok q
      → p ≤ℤ pos 0
      → q ≤ℤ pos 0
      → (r : ℤ) × (obj_cmp ops meta (string s) (string u) ≡ ok r) × (r ≤ℤ pos 0)
  obj_cmp-string_trans s t u {p} {q} hp hq lp lq =
      let ep : strcmp s t ≡ p = ground (arith, obj_cmp-strcmp s t) in
      let eq : strcmp t u ≡ q = ground (arith, obj_cmp-strcmp t u) in
      (strcmp s u, obj_cmp-strcmp s u, strcmp_trans s t u (rw ep lp) (rw eq lq))

  -- On integers the five comparison operators decide `>`, `>=`, `<`, `<=` and the three-way order.
  pub cmp_op-integer :
      (i j : ℤ)
      → (cmp_op ops meta cmp_g (integer i) (integer j) ≡ ok (boolean (ltb_ℤ j i)))
        × (cmp_op ops meta cmp_ge (integer i) (integer j) ≡ ok (boolean (not (ltb_ℤ i j))))
        × (cmp_op ops meta cmp_l (integer i) (integer j) ≡ ok (boolean (ltb_ℤ i j)))
        × (cmp_op ops meta cmp_le (integer i) (integer j) ≡ ok (boolean (not (ltb_ℤ j i))))
        × (cmp_op ops meta cmp_3w (integer i) (integer j)
            ≡ ok (integer (if eqb_ℤ i j then pos 0 else if ltb_ℤ i j then negsuc 0 else pos 1)))
  unfolding cmp_op
  cmp_op-integer i j = (ground arith, ground arith, ground arith, ground arith, refl)
