-- ===== src/Value/Arith/Division.antt =====
-- Integer division and remainder.
use native.Mathlib.Nat.{div-add-mod, mod-lt}
use sqnim.Prelude.{suc, ◌<◌, ◌≡◌, refl, ◌≢◌, ◌↔◌, ◌⊎◌, inr, arith}
use sqnim.Prelude.Int.{ℤ, pos, negsuc, ◌+ℤ◌, ◌*ℤ◌}
use sqnim.Value.Arith.{
  ok, err, fault, div, division_by_zero, mod_op, integer_overflow, int_min, long_min, magnitude,
  is_negative, quot, rem, arith_int, exec_div_int,
}
use sqnim.Word.{InRange}

quot-rem : (a b : ℤ) → b ≢ pos 0 → a ≡ b *ℤ quot a b +ℤ rem a b
unfolding quot rem ◌+ℤ◌ ◌*ℤ◌
quot-rem (pos m) (pos n) h = ground (arith, div-add-mod m n)
quot-rem (pos m) (negsuc n) h = ground (arith, div-add-mod m (suc n))
quot-rem (negsuc m) (pos n) h = ground (arith, div-add-mod (suc m) n)
quot-rem (negsuc m) (negsuc n) h = ground (arith, div-add-mod (suc m) (suc n))

rem-lt : (a b : ℤ) → b ≢ pos 0 → magnitude (rem a b) < magnitude b
unfolding rem
rem-lt (pos m) (pos n) h = ground (arith, mod-lt m {m = n})
rem-lt (pos m) (negsuc n) h = ground (arith, mod-lt m {m = suc n})
rem-lt (negsuc m) (pos n) h = ground (arith, mod-lt (suc m) {m = n})
rem-lt (negsuc m) (negsuc n) h = ground (arith, mod-lt (suc m) {m = suc n})

rem_sign : (a b : ℤ) → (rem a b ≡ pos 0) ⊎ (is_negative (rem a b) ≡ is_negative a)
unfolding rem
rem_sign (pos m) b = inr refl
rem_sign (negsuc m) b = ground arith

-- For operands in range, the division operator raises "division by zero" exactly for a zero
-- divisor, raises "integer overflow" exactly at the least 32-bit integer by -1, and traps exactly
-- at the least 64-bit integer by -1.
pub arith_int-div-cases :
    (a b : ℤ)
    → InRange a
    → InRange b
    → ((arith_int div a b ≡ err division_by_zero) ↔ (b ≡ pos 0))
      × ((arith_int div a b ≡ err integer_overflow) ↔ ((a ≡ int_min) × (b ≡ negsuc 0)))
      × ((arith_int div a b ≡ fault) ↔ ((a ≡ long_min) × (b ≡ negsuc 0)))
unfolding arith_int
arith_int-div-cases a b ha hb = (ground arith, ground arith, ground arith)

-- The interpreter's division, for operands in range: an error exactly for a zero divisor, a trap
-- exactly at the least integer by -1, and in all
-- other cases the quotient rounded towards zero.
pub exec_div_int-cases :
    (a b : ℤ)
    → InRange a
    → InRange b
    → ((exec_div_int a b ≡ err division_by_zero) ↔ (b ≡ pos 0))
      × ((exec_div_int a b ≡ fault) ↔ ((a ≡ long_min) × (b ≡ negsuc 0)))
      × ((exec_div_int a b ≡ ok (quot a b)) ↔ ((b ≢ pos 0) × ¬ ((a ≡ long_min) × (b ≡ negsuc 0))))
unfolding exec_div_int
exec_div_int-cases a b ha hb = (ground arith, ground arith, ground arith)

div_result :
    (a b q : ℤ)
    → arith_int div a b ≡ ok q
    → (q ≡ quot a b) × (b ≢ pos 0) × ¬ ((a ≡ int_min) × (b ≡ negsuc 0))
unfolding arith_int
div_result a b q h = (ground arith, ground arith, ground arith)

mod_result :
    (a b r : ℤ) → arith_int mod_op a b ≡ ok r → ¬ ((a ≡ int_min) × (b ≡ negsuc 0)) → r ≡ rem a b
unfolding arith_int
mod_result a b r h n = ground arith

-- Whenever both operators succeed on a pair, the quotient and the remainder recompose the
-- dividend, and the remainder is smaller than the divisor in magnitude and is zero or has the
-- dividend's sign.
pub arith_int-div-mod :
    (a b q r : ℤ)
    → arith_int div a b ≡ ok q
    → arith_int mod_op a b ≡ ok r
    → (a ≡ b *ℤ q +ℤ r)
      × (magnitude r < magnitude b)
      × ((r ≡ pos 0) ⊎ (is_negative r ≡ is_negative a))
arith_int-div-mod a b q r hq hr =
    let (eq, nz, out) = div_result a b q hq in
    let er = mod_result a b r hr out in rw (eq, er) (quot-rem a b nz, rem-lt a b nz, rem_sign a b)
