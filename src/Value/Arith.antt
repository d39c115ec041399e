-- ===== src/Value/Arith.antt =====
-- Arithmetic and bitwise operators: `ARITH_OP`, `BW_OP`, `NEG_OP` and the interpreter's `_OP_ADD`
-- to `_OP_MOD` (sqvm.cpp). A sum, difference or product that overflows wraps in 64 bits, as the
-- supported compilers do; what traps is a fault.
pub mod Division
pub mod Exact
use Prim.Native.Nat.{bit_and, bit_or, bit_xor}
use sqnim.Prelude.{
  ℕ, zero, suc, ◌+◌, ◌-◌, ◌*◌, ◌/◌, ◌%◌, ◌^◌, Bool, true, false, ◌&&◌, Option, none, some, List,
  ◌++◌, ◌==◌, ltb, if◌then◌else◌,
}
use sqnim.Prelude.Int.{ℤ, pos, negsuc, ◌+ℤ◌, ◌-ℤ◌, ◌*ℤ◌, eqb_ℤ, pos_part, neg_part, sub_ℕ}
use sqnim.Value.Float.{FloatOps}
use sqnim.Value.{Value, null_value, integer, float, boolean, string, object, is_delegable}
use sqnim.Word.{to_word, of_word, wrap}

pub data ArithError : Type 0 where
  division_by_zero modulo_by_zero integer_overflow bad_operands bitwise_failed meta_failed
        to_string_failed :
      ArithError

-- `fault` is behaviour that C++ leaves undefined, a trap on the usual machines
pub data Outcome (A : Type 0) : Type 0 where
  ok : A → Outcome A
  err : ArithError → Outcome A
  fault : Outcome A

pub data ArithOp : Type 0 where
  add sub mul div mod_op : ArithOp

-- the constants of `<limits.h>`: `INT_MIN` is that of the 32-bit `int`
abbrev pub int_min : ℤ
int_min = negsuc 0x7fff_ffff

abbrev pub long_min : ℤ
long_min = negsuc 0x7fff_ffff_ffff_ffff

abbrev pub magnitude : ℤ → ℕ
magnitude (pos n) = n
magnitude (negsuc n) = suc n

abbrev pub is_negative : ℤ → Bool
is_negative (pos n) = false
is_negative (negsuc n) = true

abbrev pub same_sign : ℤ → ℤ → Bool
same_sign (pos m) (pos n) = true
same_sign (pos m) (negsuc n) = false
same_sign (negsuc m) (pos n) = false
same_sign (negsuc m) (negsuc n) = true

-- division towards zero, and the remainder with the sign of the dividend
unfoldable pub quot : ℤ → ℤ → ℤ
quot a b = let q = magnitude a / magnitude b in if same_sign a b then pos q else sub_ℕ 0 q

unfoldable pub rem : ℤ → ℤ → ℤ
rem a b = let r = magnitude a % magnitude b in if is_negative a then sub_ℕ 0 r else pos r

-- C++ `a / b` on 64 bits: the one quotient that does not fit traps, and so does a zero divisor
unfoldable pub machine_div : ℤ → ℤ → Outcome ℤ
unfolding quot
machine_div a b =
    if eqb_ℤ b (pos 0)
    then fault
    else if eqb_ℤ b (negsuc 0) && eqb_ℤ a long_min
    then fault
    else ok (quot a b)

unfoldable pub machine_rem : ℤ → ℤ → Outcome ℤ
unfolding rem
machine_rem a b =
    if eqb_ℤ b (pos 0)
    then fault
    else if eqb_ℤ b (negsuc 0) && eqb_ℤ a long_min
    then fault
    else ok (rem a b)

-- `ARITH_OP` on two integers
unfoldable pub arith_int : ArithOp → ℤ → ℤ → Outcome ℤ
unfolding machine_div machine_rem wrap ◌+ℤ◌ ◌-ℤ◌ ◌*ℤ◌
arith_int add a b = ok (wrap (a +ℤ b))
arith_int sub a b = ok (wrap (a -ℤ b))
arith_int mul a b = ok (wrap (a *ℤ b))
arith_int div a b =
    if eqb_ℤ b (pos 0)
    then err division_by_zero
    else if eqb_ℤ b (negsuc 0) && eqb_ℤ a int_min
    then err integer_overflow
    else machine_div a b
arith_int mod_op a b =
    if eqb_ℤ b (pos 0)
    then err modulo_by_zero
    else if eqb_ℤ b (negsuc 0) && eqb_ℤ a int_min
    then ok (pos 0)
    else machine_rem a b

-- the interpreter's `_ARITH_NOZERO(/, …)` on two integers
unfoldable pub exec_div_int : ℤ → ℤ → Outcome ℤ
unfolding machine_div
exec_div_int a b = if eqb_ℤ b (pos 0) then err division_by_zero else machine_div a b

-- `BW_OP` on two integers; a shift by a negative count or by 64 and more is undefined in C++
pub data BitOp : Type 0 where
  bw_and bw_or bw_xor bw_shiftl bw_shiftr bw_ushiftr : BitOp

abbrev pub with_count : ℤ → (ℕ → ℤ) → Outcome ℤ
with_count (pos k) f = if ltb k 64 then ok (f k) else fault
with_count (negsuc k) f = fault

-- `i >> k` on a signed word keeps the sign: division by 2 ^ k rounding down
unfoldable pub shift_right : ℤ → ℕ → ℤ
shift_right (pos n) k = pos (n / 2 ^ k)
shift_right (negsuc n) k = negsuc (n / 2 ^ k)

unfoldable pub bitwise_int : BitOp → ℤ → ℤ → Outcome ℤ
unfolding to_word of_word shift_right
bitwise_int bw_and a b = ok (of_word (bit_and (to_word a) (to_word b)))
bitwise_int bw_or a b = ok (of_word (bit_or (to_word a) (to_word b)))
bitwise_int bw_xor a b = ok (of_word (bit_xor (to_word a) (to_word b)))
bitwise_int bw_shiftl a b = with_count b λ k. of_word (to_word a * 2 ^ k % 0x1_0000_0000_0000_0000)
bitwise_int bw_shiftr a b = with_count b λ k. shift_right a k
bitwise_int bw_ushiftr a b = with_count b λ k. of_word (to_word a / 2 ^ k)

-- what the interpreter does after an arithmetic instruction: go on with the target register at
-- this value, unwind with an error, or trap
pub data Step (F : Type 0) : Type 0 where
  continues : Value F → Step F
  throws : ArithError → Step F
  traps : Step F

pub record ArithEnv (ops : FloatOps) : Type 0 where
  -- `ToString`; `none` is a failing `_tostring` metamethod
  pub to_string : Value ops.F → Option (List ℕ)
  -- the metamethod of the operator on the first operand: `none` if it has none
  pub meta : ArithOp → Value ops.F → Value ops.F → Option (Outcome (Value ops.F))
  pub meta_neg : Value ops.F → Option (Outcome (Value ops.F))

module _ (ops : FloatOps) (env : ArithEnv ops) where
  open ops use {F, of_int, add as fadd, sub as fsub, mul as fmul, div as fdiv, neg as fneg, fmod}

  unfoldable pub arith_float : ArithOp → F → F → F
  arith_float add f g = fadd f g
  arith_float sub f g = fsub f g
  arith_float mul f g = fmul f g
  arith_float div f g = fdiv f g
  arith_float mod_op f g = fmod f g

  unfoldable pub string_cat : Value F → Value F → Outcome (Value F)
  string_cat o1 o2 = elim (env.to_string o1) [
    | none ↦ err to_string_failed
    | some a ↦ elim (env.to_string o2) [
      | none ↦ err to_string_failed
      | some b ↦ ok (string (a ++ b))
    ]
  ]

  unfoldable pub arith_meta : ArithOp → Value F → Value F → Outcome (Value F)
  arith_meta op o1 o2 = elim (env.meta op o1 o2) [ none ↦ err bad_operands | some r ↦ r ]

  abbrev pub lift : Outcome ℤ → Outcome (Value F)
  lift (ok i) = ok (integer i)
  lift (err e) = err e
  lift fault = fault

  -- operands that are not both numbers: a text on either side makes `+` a concatenation
  unfoldable pub arith_other : ArithOp → Value F → Value F → Outcome (Value F)
  unfolding string_cat arith_meta
  arith_other add (string s) o2 = string_cat (string s) o2
  arith_other add o1 (string t) = string_cat o1 (string t)
  arith_other op o1 o2 = arith_meta op o1 o2

  unfoldable pub arith_op : ArithOp → Value F → Value F → Outcome (Value F)
  unfolding arith_int arith_float arith_other
  arith_op op (integer i) (integer j) = lift (arith_int op i j)
  arith_op op (integer i) (float g) = ok (float (arith_float op (of_int i) g))
  arith_op op (float f) (integer j) = ok (float (arith_float op f (of_int j)))
  arith_op op (float f) (float g) = ok (float (arith_float op f g))
  arith_op op o1 o2 = arith_other op o1 o2

  -- `_GUARD`
  abbrev pub guarded : Outcome (Value F) → Step F
  guarded (ok v) = continues v
  guarded (err e) = throws e
  guarded fault = traps

  -- `_OP_MOD` calls `ARITH_OP` with no guard: an error leaves the target as it was
  abbrev pub unguarded : Value F → Outcome (Value F) → Step F
  unguarded target (ok v) = continues v
  unguarded target (err e) = continues target
  unguarded target fault = traps

  unfoldable pub exec_div : Value F → Value F → Step F
  unfolding exec_div_int arith_op
  exec_div (integer i) (integer j) = guarded (lift (exec_div_int i j))
  exec_div o1 o2 = guarded (arith_op div o1 o2)

  -- the five instructions, with the old value of the target register
  unfoldable pub exec_arith : ArithOp → Value F → Value F → Value F → Step F
  unfolding arith_op exec_div
  exec_arith div target o1 o2 = exec_div o1 o2
  exec_arith mod_op target o1 o2 = unguarded target (arith_op mod_op o1 o2)
  exec_arith op target o1 o2 = guarded (arith_op op o1 o2)

  unfoldable pub bw_op : BitOp → Value F → Value F → Outcome (Value F)
  unfolding bitwise_int
  bw_op op (integer i) (integer j) = lift (bitwise_int op i j)
  bw_op op o1 o2 = err bad_operands

  -- `-_integer(o)` wraps at the least integer
  unfoldable pub neg_op : Value F → Outcome (Value F)
  unfolding wrap ◌-ℤ◌
  neg_op (integer i) = ok (integer (wrap (pos 0 -ℤ i)))
  neg_op (float f) = ok (float (fneg f))
  neg_op o = elim (env.meta_neg o) [ none ↦ err bad_operands | some r ↦ r ]
