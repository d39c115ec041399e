-- ===== src/Lexer.antt =====
-- The lexer (sqlexer.cpp). Here are number literals and the encoding of characters: `ReadNumber` with
-- `LexInteger`, `LexHexadecimal` and `LexOctal`, and `AddUTF8`. The input is the characters from
-- the current one on; at its end the current character is 0. `strtod` is the C library's, a
-- parameter.
pub mod Numbers
pub mod Unicode
pub mod Steps
pub mod Token
pub mod Progress
pub mod Whole
use sqnim.Prelude.{
  ℕ, ◌+◌, ◌-◌, ◌*◌, ◌/◌, ◌%◌, Bool, true, false, ◌&&◌, ◌||◌, List, [], ◌∷◌, leb, ltb, ◌==◌,
  if◌then◌else◌, length,
}
use sqnim.Prelude.Int.{ℤ}
use sqnim.Word.{of_word, word_mod}

-- `scisdigit`, `isxdigit` and `scisodigit`
abbrev pub is_digit : ℕ → Bool
is_digit c = leb 48 c && leb c 57

abbrev pub is_letter_digit : ℕ → Bool
is_letter_digit c = leb 65 c && leb c 70 || leb 97 c && leb c 102

abbrev pub is_hex_digit : ℕ → Bool
is_hex_digit c = is_digit c || is_letter_digit c

abbrev pub is_octal_digit : ℕ → Bool
is_octal_digit c = leb 48 c && leb c 55

abbrev pub is_exponent : ℕ → Bool
is_exponent c = c == 101 || c == 69

-- `toupper` on an ASCII character
abbrev pub to_upper : ℕ → ℕ
to_upper c = if leb 97 c && leb c 122 then c - 32 else c

-- the conversions, with the number read so far; the arithmetic is that of unsigned words
unfoldable pub lex_integer : ℕ → List ℕ → ℕ
lex_integer res [] = res
lex_integer res (c ∷ s) = lex_integer ((res * 10 + (c - 48)) % word_mod) s

unfoldable pub lex_hexadecimal : ℕ → List ℕ → ℕ
lex_hexadecimal res [] = res
lex_hexadecimal res (c ∷ s) =
    let d : ℕ = if is_digit c then c - 48 else to_upper c - 65 + 10 in
    lex_hexadecimal ((res * 16 + d) % word_mod) s

unfoldable pub lex_octal : ℕ → List ℕ → ℕ
lex_octal res [] = res
lex_octal res (c ∷ s) = lex_octal ((res * 8 + (c - 48)) % word_mod) s

pub data LexError : Type 0 where
  invalid_octal too_many_digits exponent_expected : LexError

pub data NumberType : Type 0 where
  t_int t_float t_scientific : NumberType

-- a scanned text and what follows it
pub data Scan (A : Type 0) : Type 0 where
  ok : A → List ℕ → Scan A
  err : LexError → Scan A

abbrev pub current : List ℕ → ℕ
current [] = 0
current (c ∷ s) = c

abbrev pub push : {A : Type 0} → ℕ → Scan (A × List ℕ) → Scan (A × List ℕ)
push c (ok (t, text) rest) = ok (t, c ∷ text) rest
push c (err e) = err e

-- `while (is(CUR_CHAR)) { APPEND_CHAR(CUR_CHAR); NEXT(); }`: the text and the rest
unfoldable pub scan_while : (ℕ → Bool) → List ℕ → List ℕ × List ℕ
scan_while is [] = ([], [])
scan_while is (c ∷ s) =
    let (text, rest) = scan_while is s in if is c then (c ∷ text, rest) else ([], c ∷ s)

-- where the loop over a decimal literal stands: at its head, after an exponent's letter, or after
-- its sign
pub data Place : Type 0 where
  head after_e after_sign : Place

-- the check `type != TFLOAT` of the exponent follows `type = TFLOAT`, so it raises nothing
unfoldable pub scan_decimal : Place → NumberType → List ℕ → Scan (NumberType × List ℕ)
scan_decimal head t [] = ok (t, []) []
scan_decimal head t (c ∷ s) =
    let exponent = push c (scan_decimal after_e t_scientific s) in
    let point = push c (scan_decimal head t_float s) in
    let digit = push c (scan_decimal head t s) in
    if is_exponent c
    then exponent
    else if c == 46
    then point
    else if is_digit c
    then digit
    else ok (t, []) (c ∷ s)
scan_decimal after_e t [] = err exponent_expected
scan_decimal after_e t (c ∷ s) =
    let sign = push c (scan_decimal after_sign t s) in
    let digit = push c (scan_decimal head t s) in
    if c == 43 || c == 45 then sign else if is_digit c then digit else err exponent_expected
scan_decimal after_sign t [] = err exponent_expected
scan_decimal after_sign t (c ∷ s) =
    let digit = push c (scan_decimal head t s) in
    if is_digit c then digit else err exponent_expected

-- the token with its value; an integer is the signed word `_nvalue`
pub data Number (F : Type 0) : Type 0 where
  integer : ℤ → Number F
  float : F → Number F

module _ {F : Type 0} (strtod : List ℕ → F) where
  abbrev pub decimal : Scan (NumberType × List ℕ) → Scan (Number F)
  decimal (err e) = err e
  decimal (ok (t_int, text) rest) = ok (integer (of_word (lex_integer 0 text))) rest
  decimal (ok (t_float, text) rest) = ok (float (strtod text)) rest
  decimal (ok (t_scientific, text) rest) = ok (float (strtod text)) rest

  unfoldable pub read_octal : List ℕ → Scan (Number F)
  unfolding lex_octal of_word scan_while
  read_octal s =
      let (text, rest) = scan_while is_octal_digit s in
      if is_digit (current rest)
      then err invalid_octal
      else ok (integer (of_word (lex_octal 0 text))) rest

  -- `MAX_HEX_DIGITS` is 16
  unfoldable pub read_hexadecimal : List ℕ → Scan (Number F)
  unfolding lex_hexadecimal of_word scan_while
  read_hexadecimal s =
      let (text, rest) = scan_while is_hex_digit s in
      if ltb 16 (length text)
      then err too_many_digits
      else ok (integer (of_word (lex_hexadecimal 0 text))) rest

  abbrev pub next : List ℕ → List ℕ
  next [] = []
  next (c ∷ s) = s

  unfoldable pub read_number : ℕ → List ℕ → Scan (Number F)
  unfolding read_octal read_hexadecimal scan_decimal lex_integer
  read_number first s =
      if first == 48 && is_octal_digit (current s)
      then read_octal s
      else if first == 48 && to_upper (current s) == 88
      then read_hexadecimal (next s)
      else decimal (push first (scan_decimal head t_int s))

-- `AddUTF8`: the bytes appended; the bits that `|` joins do not overlap, so it adds
unfoldable pub add_utf8 : ℕ → List ℕ
add_utf8 ch =
    if ltb ch 0x80
    then ch ∷ []
    else if ltb ch 0x800
    then (0xC0 + ch / 64) ∷ (0x80 + ch % 64) ∷ []
    else if ltb ch 0x1_0000
    then (0xE0 + ch / 4096) ∷ (0x80 + ch / 64 % 64) ∷ (0x80 + ch % 64) ∷ []
    else if ltb ch 0x11_0000
    then (0xF0 + ch / 262144)
      ∷ (0x80 + ch / 4096 % 64)
      ∷ (0x80 + ch / 64 % 64)
      ∷ (0x80 + ch % 64)
      ∷ []
    else []
