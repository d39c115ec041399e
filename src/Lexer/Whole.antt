-- ===== src/Lexer/Whole.antt =====
-- `SQLexer::Lex` on a whole input.
use sqnim.Lexer.{
  Scan, ok, err, Number, integer, float, NumberType, t_int, t_float, t_scientific, Place, head,
  after_e, after_sign, push, decimal, scan_while, scan_decimal, read_octal, read_hexadecimal,
  read_number, current, next, is_digit, is_octal_digit, is_hex_digit, is_exponent, to_upper,
}
use sqnim.Lexer.Progress.{
  Leaves, Bounded, Bounded-zero, on_char-Bounded, bounded, give-Bounded, after_char-short,
  line_comment-Bounded, block_comment-Bounded, read_string-Bounded, one_or_two-Bounded,
  less_token-Bounded, greater_token-Bounded, dots_token-Bounded, sign_token-Bounded,
}
use sqnim.Lexer.Steps.{
  LexState, Lexed, lexed, failed, spent, Lex, ◌>>=◌, give, advance, on_char, begin_token,
}
use sqnim.Lexer.Token.{
  LexTypes, scanned, number_token, word_loop, read_id, slash_token, verbatim_token, other_token,
  lex_after, lex_loop, lex,
}
use sqnim.Prelude.{
  ℕ, zero, suc, ◌≤◌, ◌<◌, ◌≡◌, ◌⊎◌, inl, inr, refl, Bool, true, false, ◌&&◌, ◌||◌, Option, List, [],
  ◌∷◌, length, ◌==◌, ltb, if◌then◌else◌, arith, Bool-cases,
}

-- a scan leaves no more than `n` characters
abbrev ScanWithin : {A : Type 0} → ℕ → Scan A → Type 0
ScanWithin n (ok a rest) = length rest ≤ n
ScanWithin n (err e) = Unit {0}

push-ScanWithin :
    {A : Type 0} (n c : ℕ) (r : Scan (A × List ℕ)) → ScanWithin n r → ScanWithin (suc n) (push c r)
push-ScanWithin n c (ok (t, text) rest) w = omega (arith, w)
push-ScanWithin n c (err e) w = tt

if-ScanWithin :
    {A : Type 0} (b : Bool) (n : ℕ) (x y : Scan A)
    → ScanWithin n x
    → ScanWithin n y
    → ScanWithin n (if b then x else y)
if-ScanWithin true n x y h k = h
if-ScanWithin false n x y h k = k

scan_while-length : (is : ℕ → Bool) (s : List ℕ) → length (scan_while is s).1 ≤ length s
unfolding scan_while
scan_while-length is [] = omega arith
scan_while-length is (c ∷ s) = ground (arith, scan_while-length is s)

scan_decimal-ScanWithin :
    (at : Place) (t : NumberType) (s : List ℕ) → ScanWithin (length s) (scan_decimal at t s)
unfolding scan_decimal
scan_decimal-ScanWithin head t [] = omega arith
scan_decimal-ScanWithin head t (c ∷ s) =
    if-ScanWithin (is_exponent c) _ _ _
      (push-ScanWithin _ c _ (scan_decimal-ScanWithin after_e t_scientific s))
      (if-ScanWithin (c == 46) _ _ _
        (push-ScanWithin _ c _ (scan_decimal-ScanWithin head t_float s))
        (if-ScanWithin (is_digit c) _ _ _ (push-ScanWithin _ c _ (scan_decimal-ScanWithin head t s))
          (omega arith)))
scan_decimal-ScanWithin after_e t [] = tt
scan_decimal-ScanWithin after_e t (c ∷ s) =
    if-ScanWithin (c == 43 || c == 45) _ _ _
      (push-ScanWithin _ c _ (scan_decimal-ScanWithin after_sign t s))
      (if-ScanWithin (is_digit c) _ _ _ (push-ScanWithin _ c _ (scan_decimal-ScanWithin head t s))
        tt)
scan_decimal-ScanWithin after_sign t [] = tt
scan_decimal-ScanWithin after_sign t (c ∷ s) =
    if-ScanWithin (is_digit c) _ _ _ (push-ScanWithin _ c _ (scan_decimal-ScanWithin head t s)) tt

next-length : {F : Type 0} (strtod : List ℕ → F) (s : List ℕ) → length (next strtod s) ≤ length s
next-length strtod [] = omega arith
next-length strtod (c ∷ s) = omega arith

module _ {F : Type 0} (strtod : List ℕ → F) (types : LexTypes) (keywords : List ℕ → Option ℕ) where
  read_octal-ScanWithin : (s : List ℕ) → ScanWithin (length s) (read_octal strtod s)
  unfolding read_octal
  read_octal-ScanWithin s =
      if-ScanWithin (is_digit (current (scan_while is_octal_digit s).1)) _ _ _ tt
        (scan_while-length is_octal_digit s)

  read_hexadecimal-ScanWithin : (s : List ℕ) → ScanWithin (length s) (read_hexadecimal strtod s)
  unfolding read_hexadecimal
  read_hexadecimal-ScanWithin s =
      if-ScanWithin (ltb 16 (length (scan_while is_hex_digit s).0)) _ _ _ tt
        (scan_while-length is_hex_digit s)

  decimal-ScanWithin :
      (n first : ℕ) (r : Scan (NumberType × List ℕ))
      → ScanWithin n r
      → ScanWithin n (decimal strtod (push first r))
  decimal-ScanWithin n first (err e) w = tt
  decimal-ScanWithin n first (ok (t_int, text) rest) w = w
  decimal-ScanWithin n first (ok (t_float, text) rest) w = w
  decimal-ScanWithin n first (ok (t_scientific, text) rest) w = w

  ScanWithin-weaker : {A : Type 0} (n m : ℕ) (r : Scan A) → n ≤ m → ScanWithin n r → ScanWithin m r
  ScanWithin-weaker n m (ok a rest) h w = omega (arith, h, w)
  ScanWithin-weaker n m (err e) h w = tt

  read_number-ScanWithin :
      (first : ℕ) (s : List ℕ) → ScanWithin (length s) (read_number strtod first s)
  unfolding read_number
  read_number-ScanWithin first s =
      if-ScanWithin (first == 48 && is_octal_digit (current s)) _ _ _ (read_octal-ScanWithin s) (
        if-ScanWithin (first == 48 && to_upper (current s) == 88) _ _ _
          (ScanWithin-weaker (length (next strtod s)) (length s)
            (read_hexadecimal strtod (next strtod s)) (next-length strtod s)
            (read_hexadecimal-ScanWithin (next strtod s)))
          (decimal-ScanWithin (length s) first _ (scan_decimal-ScanWithin head t_int s)))

  scanned-Leaves :
      (k before : ℕ) (r : Scan (Number F)) (s : LexState F)
      → before < k
      → ScanWithin before r
      → Leaves k (scanned strtod types keywords before r s)
  unfolding scanned
  scanned-Leaves k before (err e) s short w = tt
  scanned-Leaves k before (ok (integer i) rest) s short w = omega (arith, short, w)
  scanned-Leaves k before (ok (float x) rest) s short w = omega (arith, short, w)

  number_token-Bounded : (k first : ℕ) → Bounded k (number_token strtod types keywords first)
  unfolding Bounded number_token
  number_token-Bounded k first s short =
      scanned-Leaves k (length s.input) (read_number strtod first s.input) s short
        (read_number-ScanWithin first s.input)

  word_loop-Bounded :
      (f k : ℕ) (text : List ℕ) → k ≤ f → Bounded k (word_loop strtod types keywords f text)
  unfolding word_loop
  word_loop-Bounded f zero text le = Bounded-zero _
  word_loop-Bounded zero (suc k) text le = absurd (omega (arith, le))
  word_loop-Bounded (suc f) (suc k) text le =
      let again = λ (t : List ℕ). word_loop-Bounded f k t (omega (arith, le)) in
      search (bounded, on_char-Bounded, again) depth 30

  read_id-Bounded : (f k first : ℕ) → k ≤ f → Bounded k (read_id strtod types keywords f first)
  unfolding read_id
  read_id-Bounded f k first le = search (bounded, word_loop-Bounded f k (first ∷ []) le) depth 30

  slash_token-Bounded :
      (f k : ℕ) (again : Lex F ℕ)
      → k ≤ f
      → Bounded k again
      → Bounded k (slash_token strtod types keywords f again)
  unfolding slash_token
  slash_token-Bounded f k again le h =
      search (bounded, block_comment-Bounded F f k le, line_comment-Bounded F f k le) depth 30

  verbatim_token-Bounded : (f k : ℕ) → k ≤ f → Bounded k (verbatim_token strtod types keywords f)
  unfolding verbatim_token
  verbatim_token-Bounded f k le = search (bounded, read_string-Bounded F f k 34 true le) depth 30

  other_token-Bounded : (f k c : ℕ) → k ≤ f → Bounded k (other_token strtod types keywords f c)
  unfolding other_token
  other_token-Bounded f k c le =
      search (bounded, number_token-Bounded, read_id-Bounded f k c le) depth 30

  lex_after-Bounded :
      (f k c : ℕ) (again : Lex F ℕ)
      → k ≤ f
      → Bounded k again
      → Bounded k (lex_after strtod types keywords f again c)
  unfolding lex_after
  lex_after-Bounded f k c again le h =
      search
        (
          bounded,
          line_comment-Bounded F f k le,
          slash_token-Bounded f k again le h,
          one_or_two-Bounded,
          less_token-Bounded,
          greater_token-Bounded,
          verbatim_token-Bounded f k le,
          read_string-Bounded F f k c false le,
          dots_token-Bounded,
          sign_token-Bounded,
          other_token-Bounded f k c le,
        )
        depth 60 fits 4000

  lex_loop-Bounded : (f k : ℕ) → k ≤ f → Bounded k (lex_loop strtod types keywords f)
  unfolding lex_loop
  lex_loop-Bounded f zero le = Bounded-zero _
  lex_loop-Bounded zero (suc k) le = absurd (omega (arith, le))
  lex_loop-Bounded (suc f) (suc k) le = on_char-Bounded k _ _ (give-Bounded F (suc k) 0) (λ c.
      lex_after-Bounded f k c (lex_loop strtod types keywords f) (omega (arith, le))
        (lex_loop-Bounded f k (omega (arith, le))))

opened :
    {F A : Type 0} (k : ℕ) (m : Lex F A)
    → Bounded k m
    → (s : LexState F) → length s.input < k
    → Leaves k (m s)
unfolding Bounded
opened k m h = h

-- what a call of `Lex` does to the state that it is called on
abbrev pub Outcome : {F : Type 0} → LexState F → Lexed F ℕ → Type 0
Outcome s (lexed t u) =
    ((current s.input ≡ 0) × (t ≡ 0) × (u.input ≡ s.input)) ⊎ (length u.input < length s.input)
Outcome s (failed e) = Unit {0}
Outcome s spent = ⊥

Leaves-Outcome :
    {F : Type 0} (s : LexState F) (r : Lexed F ℕ) → Leaves (length s.input) r → Outcome s r
Leaves-Outcome s (lexed t u) w = inr w
Leaves-Outcome s (failed e) w = tt
Leaves-Outcome s spent w = absurd w

-- With more fuel than characters left a call of `Lex` ends: with an error, at the end of the input with
-- the token 0 and the input as it was, or with a token for which it has passed at least one character.
pub lex-Outcome :
    {F : Type 0} (strtod : List ℕ → F) (types : LexTypes) (keywords : List ℕ → Option ℕ) (f : ℕ)
    (s : LexState F)
    → length s.input < f
    → Outcome s (lex strtod types keywords f s)
unfolding lex lex_loop begin_token on_char advance ◌>>=◌ give
lex-Outcome strtod types keywords zero s short = absurd (omega (arith, short))
lex-Outcome {F = F} strtod types keywords (suc f) s short =
    elim (Bool-cases (current s.input == 0)) [
      | inl done ↦ rw done (inl (ground (arith, done), refl, refl))
      | inr going ↦ rw going (
          Leaves-Outcome s _ (
            opened (length s.input) _
              (lex_after-Bounded strtod types keywords f (length s.input) (current s.input)
                (lex_loop strtod types keywords f) (omega (arith, short))
                (lex_loop-Bounded strtod types keywords f (length s.input) (omega (arith, short))))
              _ (after_char-short s.input (length s.input) (omega arith) going)))
    ]
