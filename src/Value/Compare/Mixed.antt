-- ===== src/Value/Compare/Mixed.antt =====
-- Comparison of null and booleans with numbers, which share the numeric flag in this code.
use sqnim.Prelude.{ℕ, ◌-◌, ◌%◌, ◌<◌, ◌≡◌, false, Option, arith}
use sqnim.Prelude.Int.{ℤ, pos, negsuc, ltb_ℤ, eqb_ℤ}
use sqnim.Value.Compare.{Result, ok, obj_cmp, is_equal}
use sqnim.Value.Float.{FloatOps}
use sqnim.Value.{Value, null_value, integer}
use sqnim.Word.{to_word}

-- What IEEE single precision gives for the bit patterns that are read here: the pattern 0 is
-- zero, and a pattern above 0xff800000 is not a number, so no test on it holds.
pub record IeeeBits (ops : FloatOps) : Type 0 where
  pub zero_eq : (i : ℤ) → ops.eqb (ops.of_bits 0) (ops.of_int i) ≡ eqb_ℤ (pos 0) i
  pub zero_lt : (i : ℤ) → ops.ltb (ops.of_bits 0) (ops.of_int i) ≡ ltb_ℤ (pos 0) i
  pub nan_eq :
      (w : ℕ) (i : ℤ)
      → 0xff80_0000 < w
      → w < 0x1_0000_0000
      → ops.eqb (ops.of_bits w) (ops.of_int i) ≡ false
  pub nan_lt :
      (w : ℕ) (i : ℤ)
      → 0xff80_0000 < w
      → w < 0x1_0000_0000
      → ops.ltb (ops.of_bits w) (ops.of_int i) ≡ false

low_bits-negative : (n : ℕ) → n < 0x7f_ffff → to_word (negsuc n) % 0x1_0000_0000 ≡ 0xffff_ffff - n
unfolding to_word
low_bits-negative n h = omega arith

module _ (ops : FloatOps) (meta : Value ops.F → Value ops.F → Option (Result (Value ops.F)))
    (ieee : IeeeBits ops) where
  -- Where bit patterns are read as IEEE single precision reads them, every negative integer above
  -- -2^23 compares as greater than null, and null compares as greater than it.
  pub obj_cmp-null_both_greater :
      (n : ℕ)
      → n < 0x7f_ffff
      → (obj_cmp ops meta null_value (integer (negsuc n)) ≡ ok (pos 1))
        × (obj_cmp ops meta (integer (negsuc n)) null_value ≡ ok (pos 1))
  unfolding obj_cmp
  obj_cmp-null_both_greater n h = ground (
    arith,
    ieee.zero_eq (negsuc n),
    ieee.zero_lt (negsuc n),
    low_bits-negative n,
    ieee.nan_eq (to_word (negsuc n) % 0x1_0000_0000) (pos 0),
    ieee.nan_lt (to_word (negsuc n) % 0x1_0000_0000) (pos 0),
  )

  -- Null equals an integer under `==` exactly when the integer is zero.
  pub is_equal-null : (i : ℤ) → is_equal ops null_value (integer i) ≡ eqb_ℤ (pos 0) i
  unfolding is_equal
  is_equal-null i = ground (arith, ieee.zero_eq i)
