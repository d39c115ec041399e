-- ===== src/Word.antt =====
-- Signed machine words: bit patterns below a modulus, and the integers that they stand for.
use sqnim.Prelude.{ℕ, ◌-◌, ◌%◌, ◌<◌, ◌≡◌, arith, ltb, if◌then◌else◌}
use sqnim.Prelude.Int.{ℤ, pos, negsuc}

-- 2 ^ 64, written out so that arithmetic reads it
abbrev pub word_mod : ℕ
word_mod = 0x1_0000_0000_0000_0000

abbrev pub half_mod : ℕ
half_mod = 0x8000_0000_0000_0000

-- the two's complement pattern of an integer in 64 bits
unfoldable pub to_word : ℤ → ℕ
to_word (pos n) = n % word_mod
to_word (negsuc n) = word_mod - 1 - n % word_mod

unfoldable pub of_word : ℕ → ℤ
of_word w = if ltb w half_mod then pos w else negsuc (word_mod - 1 - w)

-- what a signed 64-bit operation leaves of an exact result
unfoldable pub wrap : ℤ → ℤ
unfolding to_word of_word
wrap a = of_word (to_word a)

-- the values of `SQInteger`
abbrev pub InRange : ℤ → Type 0
InRange (pos n) = n < half_mod
InRange (negsuc n) = n < half_mod

pub wrap-InRange : (a : ℤ) → InRange (wrap a)
unfolding wrap
wrap-InRange (pos n) = ground arith
wrap-InRange (negsuc n) = ground arith

pub wrap_of_InRange : (a : ℤ) → InRange a → wrap a ≡ a
unfolding wrap
wrap_of_InRange (pos n) h = ground arith
wrap_of_InRange (negsuc n) h = ground arith
