-- ===== src/Lexer/Numbers.antt =====
-- What number literals are read as.
use sqnim.Lexer.{
  is_digit, is_hex_digit, is_octal_digit, is_exponent, to_upper, lex_integer, lex_hexadecimal,
  scan_while, scan_decimal, head, NumberType, t_int, ok, err, integer, current, read_number,
  read_hexadecimal, too_many_digits,
}
use sqnim.Prelude.{
  ℕ, zero, suc, ◌+◌, ◌-◌, ◌*◌, ◌/◌, ◌%◌, ◌≤◌, ◌<◌, ◌≡◌, ◌≢◌, refl, ◌∙◌, Bool, true, false, List, [],
  ◌∷◌, ◌++◌, arith, if◌then◌else◌, length, ltb, leb, Bool-cases, inl, inr,
}
use sqnim.Word.{of_word, word_mod}

-- every character passes the test
abbrev pub All : (ℕ → Bool) → List ℕ → Type 0
All is [] = Unit {0}
All is (c ∷ s) = (is c ≡ true) × All is s

-- the number that digits stand for, without a bound
abbrev pub value : ℕ → (ℕ → ℕ) → ℕ → List ℕ → ℕ
value base digit n [] = n
value base digit n (c ∷ s) = value base digit (n * base + digit c) s

abbrev pub decimal_digit : ℕ → ℕ
decimal_digit c = c - 48

-- 0 to 9, a to f, A to F
abbrev pub hex_digit : ℕ → ℕ
hex_digit c = if leb 97 c then c - 87 else if leb 65 c then c - 55 else c - 48

lex_integer-value :
    (n : ℕ) (s : List ℕ) → lex_integer (n % word_mod) s ≡ value 10 decimal_digit n s % word_mod
unfolding lex_integer
lex_integer-value n [] = refl
lex_integer-value n (c ∷ s) =
    let step : (n % word_mod * 10 + (c - 48)) % word_mod ≡ (n * 10 + (c - 48)) % word_mod =
      omega arith in
    rw step (lex_integer-value (n * 10 + (c - 48)) s)

-- the character after a decimal literal
abbrev pub EndsDecimal : ℕ → Type 0
EndsDecimal c = (is_digit c ≡ false) × (is_exponent c ≡ false) × (c ≢ 46)

scan_decimal-digits :
    (t : NumberType) (s rest : List ℕ)
    → All is_digit s
    → EndsDecimal (current rest)
    → scan_decimal head t (s ++ rest) ≡ ok (t, s) rest
unfolding scan_decimal
scan_decimal-digits t [] [] a e = refl
scan_decimal-digits t [] (c ∷ rest) a e = ground arith
scan_decimal-digits t (c ∷ s) rest (d, a) e = rw (scan_decimal-digits t s rest a e) (ground arith)

scan_while-All :
    (is : ℕ → Bool) (s rest : List ℕ)
    → All is s
    → is (current rest) ≡ false
    → is 0 ≡ false
    → scan_while is (s ++ rest) ≡ (s, rest)
unfolding scan_while
scan_while-All is [] [] a e z = refl
scan_while-All is [] (c ∷ rest) a e z = rw e
scan_while-All is (c ∷ s) rest (d, a) e z = rw (scan_while-All is s rest a e z, d)

-- the numbers that so many hexadecimal digits can follow without overflow
abbrev room : ℕ → ℕ
room zero = word_mod
room (suc k) = room k / 16

room_bound : (k : ℕ) → room k ≤ word_mod
room_bound zero = omega arith
room_bound (suc k) = omega (arith, room_bound k)

room_positive : (j k : ℕ) → j + k ≡ 16 → 0 < room k
room_positive zero k e = let e' : k ≡ 16 = omega (arith, e) in rw e' (omega arith)
room_positive (suc j) k e = omega (arith, room_positive j (suc k) (omega (arith, e)))

hex_digit_lem :
    (c : ℕ)
    → is_hex_digit c ≡ true
    → ((if is_digit c then c - 48 else to_upper c - 65 + 10) ≡ hex_digit c) × (hex_digit c < 16)
hex_digit_lem c h = ground arith

lex_hexadecimal-value :
    (n : ℕ) (s : List ℕ)
    → All is_hex_digit s
    → n < room (length s)
    → lex_hexadecimal n s ≡ value 16 hex_digit n s
unfolding lex_hexadecimal
lex_hexadecimal-value n [] a h = refl
lex_hexadecimal-value n (c ∷ s) (d, a) h =
    let (same, small) = hex_digit_lem c d in
    let fits : n * 16 + hex_digit c < room (length s) = omega (arith, h, small) in
    let bound : (n * 16 + hex_digit c) % word_mod ≡ n * 16 + hex_digit c =
      omega (arith, fits, room_bound (length s)) in
    rw (same, bound) (lex_hexadecimal-value (n * 16 + hex_digit c) s a fits)

module _ {F : Type 0} (strtod : List ℕ → F) where
  -- A literal of decimal digits that does not start with 0 is read, up to the first character that
  -- no decimal literal goes on with, as its value modulo 2^64, seen as a signed word.
  pub read_number-decimal :
      (c : ℕ) (s rest : List ℕ)
      → is_digit c ≡ true
      → c ≢ 48
      → All is_digit s
      → EndsDecimal (current rest)
      → read_number strtod c (s ++ rest)
        ≡ ok (integer (of_word (value 10 decimal_digit 0 (c ∷ s) % word_mod))) rest
  unfolding read_number
  read_number-decimal c s rest d nz a e =
      ground (arith, scan_decimal-digits t_int s rest a e, lex_integer-value (0 * 10 + (c - 48)) s)

  read_hexadecimal-value :
      (s rest : List ℕ)
      → All is_hex_digit s
      → is_hex_digit (current rest) ≡ false
      → read_hexadecimal strtod (s ++ rest) ≡ (
          if leb (length s) 16
          then ok (integer (of_word (value 16 hex_digit 0 s))) rest
          else err too_many_digits)
  unfolding read_hexadecimal
  read_hexadecimal-value s rest a e = elim (Bool-cases (leb (length s) 16)) [
    | inl few ↦
        let some_room : 0 < room (length s) =
          room_positive (16 - length s) (length s) (ground arith) in
        let fine : ltb 16 (length s) ≡ false = ground arith in
        rw (
          scan_while-All is_hex_digit s rest a e refl,
          few,
          fine,
          lex_hexadecimal-value 0 s a some_room,
        )
    | inr many ↦
        let bad : ltb 16 (length s) ≡ true = ground arith in
        rw (scan_while-All is_hex_digit s rest a e refl, many, bad)
  ]

  read_number-prefix :
      (x : ℕ) (s : List ℕ)
      → to_upper x ≡ 88
      → read_number strtod 48 (x ∷ s) ≡ read_hexadecimal strtod s
  unfolding read_number
  read_number-prefix x s hx =
      let no_octal : is_octal_digit x ≡ false = ground arith in rw (no_octal, hx)

  -- A literal of `0x` and at most 16 hexadecimal digits is read exactly, as the bits of a signed
  -- word; one with more digits is an error.
  pub read_number-hexadecimal :
      (x : ℕ) (s rest : List ℕ)
      → to_upper x ≡ 88
      → All is_hex_digit s
      → is_hex_digit (current rest) ≡ false
      → read_number strtod 48 (x ∷ s ++ rest) ≡ (
          if leb (length s) 16
          then ok (integer (of_word (value 16 hex_digit 0 s))) rest
          else err too_many_digits)
  read_number-hexadecimal x s rest hx a e =
      read_number-prefix x (s ++ rest) hx ∙ read_hexadecimal-value s rest a e
