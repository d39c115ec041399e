-- ===== src/Value/Compare.antt =====
-- `SQVM::ObjCmp`, `CMP_OP`, `IsEqual` and `IsFalse` (sqvm.cpp).
pub mod Order
pub mod Mixed
use mathlib.Core.Logic.{ite}
use sqnim.Prelude.{
  ℕ, ◌%◌, Bool, true, false, not, ◌&&◌, ◌||◌, Option, none, some, List, [], ◌∷◌, ◌==◌, ltb,
  if◌then◌else◌,
}
use sqnim.Prelude.Int.{ℤ, pos, negsuc, ltb_ℤ, eqb_ℤ}
use sqnim.Value.Float.{FloatOps}
use sqnim.Value.{
  Value, null_value, integer, float, boolean, string, object, Kind, table, user_data,
  instance_object, Kind_eq, is_numeric,
}
use sqnim.Word.{to_word}

-- what a comparison raises
pub data CompareError : Type 0 where
  compare_mismatch cmp_not_integer meta_failed : CompareError

pub data Result (A : Type 0) : Type 0 where
  ok : A → Result A
  err : CompareError → Result A

pub data CmpOp : Type 0 where
  cmp_g cmp_ge cmp_l cmp_le cmp_3w : CmpOp

-- `strcmp` on NUL-terminated bytes; of its result only the sign is documented
unfoldable pub strcmp : List ℕ → List ℕ → ℤ
strcmp [] [] = pos 0
strcmp [] (d ∷ t) = if d == 0 then pos 0 else negsuc 0
strcmp (c ∷ s) [] = if c == 0 then pos 0 else pos 1
strcmp (c ∷ s) (d ∷ t) =
    let rest = strcmp s t in
    if c == d then (if c == 0 then pos 0 else rest) else if ltb c d then negsuc 0 else pos 1

unfoldable pub eq_bytes : List ℕ → List ℕ → Bool
eq_bytes [] [] = true
eq_bytes [] (d ∷ t) = false
eq_bytes (c ∷ s) [] = false
eq_bytes (c ∷ s) (d ∷ t) = c == d && eq_bytes s t

abbrev pub bool_bit : Bool → ℕ
bool_bit true = 1
bool_bit false = 0

unfoldable pub is_delegate_kind : Kind → Bool
is_delegate_kind table = true
is_delegate_kind user_data = true
is_delegate_kind instance_object = true
is_delegate_kind _ = false

module _ (ops : FloatOps) where
  open ops use {F, of_int, bits, of_bits, eqb as feqb, ltb as fltb}

  -- `_float(o)`: the low 32 bits of the value's word, whatever the type is
  unfoldable pub read_float : Value F → F
  read_float null_value = of_bits 0
  read_float (integer i) = of_bits (to_word i % 0x1_0000_0000)
  read_float (float f) = f
  read_float (boolean b) = of_bits (bool_bit b)
  read_float (string s) = of_bits 0
  read_float (object k p) = of_bits (p % 0x1_0000_0000)

  -- `tofloat(o)`
  unfoldable pub to_float : Value F → F
  unfolding read_float
  to_float (integer i) = of_int i
  to_float v = read_float v

  -- `_integer(o)` of a number, a boolean or null
  unfoldable pub read_int : Value F → ℤ
  read_int null_value = pos 0
  read_int (integer i) = i
  read_int (float f) = pos (bits f)
  read_int (boolean b) = pos (bool_bit b)
  read_int (string s) = pos 0
  read_int (object k p) = pos p

  -- the two numeric branches for operands of different types; the second reads the first operand
  -- as a float and the second as an integer, whatever they are
  unfoldable pub cmp_numeric : Value F → Value F → ℤ
  unfolding read_float read_int
  cmp_numeric (integer i) (float f) =
      if feqb (of_int i) f then pos 0 else if fltb (of_int i) f then negsuc 0 else pos 1
  cmp_numeric o1 o2 =
      if feqb (read_float o1) (of_int (read_int o2))
      then pos 0
      else if fltb (read_float o1) (of_int (read_int o2))
      then negsuc 0
      else pos 1

  unfoldable pub cmp_null : Value F → Value F → Result ℤ
  cmp_null null_value o2 = ok (negsuc 0)
  cmp_null o1 null_value = ok (pos 1)
  cmp_null o1 o2 = err compare_mismatch

  unfoldable pub cmp_different : Value F → Value F → Result ℤ
  unfolding is_numeric cmp_numeric cmp_null
  cmp_different o1 o2 =
      if is_numeric o1 && is_numeric o2 then ok (cmp_numeric o1 o2) else cmp_null o1 o2

  -- the result of a `_cmp` metamethod
  unfoldable pub meta_result : Result (Value F) → Result ℤ
  meta_result (ok (integer i)) = ok i
  meta_result (ok v) = err cmp_not_integer
  meta_result (err e) = err meta_failed

  -- `meta o1 o2` is `none` if `o1` has no delegate with a `_cmp`, else what the call gives
  module _ (meta : Value F → Value F → Option (Result (Value F))) where
    unfoldable pub cmp_object : Kind → ℕ → ℕ → Result ℤ
    unfolding meta_result is_delegate_kind
    cmp_object k p q =
        let by_address : Result ℤ = ok (if ltb p q then negsuc 0 else pos 1) in
        if p == q
        then ok (pos 0)
        else if is_delegate_kind k
        then elim (meta (object k p) (object k q)) [ none ↦ by_address | some r ↦ meta_result r ]
        else by_address

    unfoldable pub obj_cmp : Value F → Value F → Result ℤ
    unfolding strcmp eq_bytes cmp_different cmp_object Kind_eq
    obj_cmp null_value null_value = ok (pos 0)
    obj_cmp (integer i) (integer j) =
        ok (if eqb_ℤ i j then pos 0 else if ltb_ℤ i j then negsuc 0 else pos 1)
    obj_cmp (float f) (float g) =
        ok (if bits f == bits g then pos 0 else if fltb f g then negsuc 0 else pos 1)
    obj_cmp (boolean a) (boolean b) = ok (
        if bool_bit a == bool_bit b
        then pos 0
        else if ltb (bool_bit a) (bool_bit b)
        then negsuc 0
        else pos 1)
    obj_cmp (string s) (string t) = ok (if eq_bytes s t then pos 0 else strcmp s t)
    obj_cmp (object k p) (object j q) =
        if Kind_eq k j then cmp_object k p q else cmp_different (object k p) (object j q)
    obj_cmp o1 o2 = cmp_different o1 o2

    -- `CMP_OP`; the three-way form leaves the number, the others a boolean
    unfoldable pub cmp_result : CmpOp → ℤ → Value F
    cmp_result cmp_g r = boolean (ltb_ℤ (pos 0) r)
    cmp_result cmp_ge r = boolean (not (ltb_ℤ r (pos 0)))
    cmp_result cmp_l r = boolean (ltb_ℤ r (pos 0))
    cmp_result cmp_le r = boolean (not (ltb_ℤ (pos 0) r))
    cmp_result cmp_3w r = integer r

    unfoldable pub cmp_op : CmpOp → Value F → Value F → Result (Value F)
    unfolding obj_cmp cmp_result
    cmp_op op o1 o2 = elim (obj_cmp o1 o2) [ ok r ↦ ok (cmp_result op r) | err e ↦ err e ]

  -- `IsEqual`
  unfoldable pub is_equal : Value F → Value F → Bool
  unfolding eq_bytes is_numeric to_float Kind_eq
  is_equal null_value null_value = true
  is_equal (integer i) (integer j) = eqb_ℤ i j
  is_equal (float f) (float g) = feqb f g
  is_equal (boolean a) (boolean b) = bool_bit a == bool_bit b
  is_equal (string s) (string t) = eq_bytes s t
  is_equal (object k p) (object j q) = Kind_eq k j && p == q
  is_equal o1 o2 =
      if is_numeric o1 && is_numeric o2 then feqb (to_float o1) (to_float o2) else false

  -- `IsFalse`: a zero float, or a zero word
  unfoldable pub is_false : Value F → Bool
  is_false null_value = true
  is_false (integer i) = eqb_ℤ i (pos 0)
  is_false (float f) = feqb f (of_int (pos 0)) || bits f == 0
  is_false (boolean b) = bool_bit b == 0
  is_false (string s) = false
  is_false (object k p) = p == 0
