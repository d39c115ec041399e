-- ===== src/Value/Arith/Exact.antt =====
-- Sums, differences and products, and the instructions of the interpreter.
use sqnim.Prelude.{subst, ◌↔◌, ◌≡◌, refl, ◌≢◌, arith}
use sqnim.Prelude.Int.{ℤ, pos, ◌+ℤ◌, ◌-ℤ◌, ◌*ℤ◌}
use sqnim.Value.Arith.{
  Outcome, ok, add, sub, mul, div, mod_op, arith_int, ArithEnv, exec_arith, arith_op, unguarded,
  ArithError, continues, throws, division_by_zero,
}
use sqnim.Value.Float.{FloatOps}
use sqnim.Value.{Value, integer}
use sqnim.Word.{InRange, wrap, wrap-InRange, wrap_of_InRange}

wrap_iff : (x : ℤ) → InRange x ↔ (wrap x ≡ x)
wrap_iff x = (wrap_of_InRange x, λ e. subst InRange e (wrap-InRange x))

-- Addition, subtraction and multiplication of integers always succeed with a value in range, which
-- is the exact result exactly if that is in range.
pub arith_int-exact :
    (a b : ℤ)
    → ((r : ℤ) × (arith_int add a b ≡ ok r) × InRange r × (InRange (a +ℤ b) ↔ (r ≡ a +ℤ b)))
      × ((r : ℤ) × (arith_int sub a b ≡ ok r) × InRange r × (InRange (a -ℤ b) ↔ (r ≡ a -ℤ b)))
      × ((r : ℤ) × (arith_int mul a b ≡ ok r) × InRange r × (InRange (a *ℤ b) ↔ (r ≡ a *ℤ b)))
unfolding arith_int
arith_int-exact a b = (
  (wrap (a +ℤ b), refl, wrap-InRange _, wrap_iff (a +ℤ b)),
  (wrap (a -ℤ b), refl, wrap-InRange _, wrap_iff (a -ℤ b)),
  (wrap (a *ℤ b), refl, wrap-InRange _, wrap_iff (a *ℤ b)),
)

module _ (ops : FloatOps) (env : ArithEnv ops) where
  unguarded-ne-throws :
      (target : Value ops.F) (r : Outcome (Value ops.F)) (e : ArithError)
      → unguarded ops env target r ≢ throws e
  unguarded-ne-throws target r e = ground arith

  -- Division of an integer by the integer zero unwinds with an error. The modulo instruction
  -- never unwinds, whatever its operands are: for an integer and the integer zero, the target
  -- register keeps its old value.
  pub exec_arith-mod_never_throws :
      (target o1 o2 : Value ops.F) (i : ℤ) (e : ArithError)
      → (exec_arith ops env div target (integer i) (integer (pos 0)) ≡ throws division_by_zero)
        × (exec_arith ops env mod_op target o1 o2 ≢ throws e)
        × (exec_arith ops env mod_op target (integer i) (integer (pos 0)) ≡ continues target)
  unfolding exec_arith
  exec_arith-mod_never_throws target o1 o2 i e =
      (refl, unguarded-ne-throws target (arith_op ops env mod_op o1 o2) e, refl)
