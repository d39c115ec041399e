-- ===== src/Lexer/Steps.antt =====
-- The state of the lexer and its steps on characters (sqlexer.h, sqlexer.cpp). The input is the
-- characters from the current one on; at its end, and at a zero, the current character is 0. What
-- `_keywords` holds and the C library's tests of characters are parameters.
use sqnim.Lexer.{current, is_hex_digit, is_digit, to_upper, add_utf8}
use sqnim.Prelude.Int.{ℤ, pos, negsuc}
use sqnim.Prelude.{
  ℕ, zero, suc, ◌+◌, ◌*◌, ◌-◌, ◌%◌, Bool, not, ◌&&◌, ◌||◌, Option, List, [], ◌∷◌, ◌++◌, ltb, ◌==◌,
  if◌then◌else◌,
}

pub data TokenError : Type 0 where
  missing_comment_end : TokenError
  unexpected_control : TokenError
  invalid_dots : TokenError
  parsing_string : TokenError
  unfinished_string : TokenError
  newline_in_constant : TokenError
  hexadecimal_expected : TokenError
  unrecognised_escape : TokenError
  empty_constant : TokenError
  constant_too_long : TokenError
  bad_number : TokenError

pub record LexState (F : Type 0) : Type 0 where
  pub input : List ℕ
  pub current_line : ℕ
  pub current_column : ℕ
  pub token_line : ℕ
  pub prev_token : ℕ
  pub cur_token : ℕ
  pub string_value : List ℕ
  pub int_value : ℤ
  pub float_value : Option F

-- a step ends with a result, with an error of the compiler, or for want of fuel
pub data Lexed (F A : Type 0) : Type 0 where
  lexed : A → LexState F → Lexed F A
  failed : TokenError → Lexed F A
  spent : Lexed F A

abbrev pub Lex : Type 0 → Type 0 → Type 0
Lex F A = LexState F → Lexed F A

infixl 5 ◌>>=◌ ◌>>◌
unfoldable pub give : {F A : Type 0} → A → Lex F A
give a s = lexed a s

unfoldable pub ◌>>=◌ : {F A B : Type 0} → Lex F A → (A → Lex F B) → Lex F B
(first >>= next) s = elim (first s) [ lexed a t ↦ next a t | failed e ↦ failed e | spent ↦ spent ]

abbrev pub ◌>>◌ : {F B : Type 0} → Lex F (Unit {0}) → Lex F B → Lex F B
first >> second = first >>= λ _. second

unfoldable pub lex_error : {F A : Type 0} → TokenError → Lex F A
lex_error e s = failed e

unfoldable pub no_fuel : {F A : Type 0} → Lex F A
no_fuel s = spent

-- `CUR_CHAR`
unfoldable pub cur_char : {F : Type 0} → Lex F ℕ
cur_char s = lexed (current s.input) s

abbrev pub after_char : List ℕ → List ℕ
after_char [] = []
after_char (c ∷ l) = l

-- `NEXT()`
unfoldable pub advance : {F : Type 0} → Lex F (Unit {0})
advance s =
    lexed tt (record s { input = after_char s.input; current_column = s.current_column + 1 })

-- the end of the input, or a character that is passed
unfoldable pub on_char : {F A : Type 0} → Lex F A → (ℕ → Lex F A) → Lex F A
unfolding advance ◌>>=◌
on_char at_end more s =
    if current s.input == 0 then at_end s else (advance >> more (current s.input)) s

-- changes of other fields
unfoldable pub new_line : {F : Type 0} → Lex F (Unit {0})
new_line s = lexed tt (record s { current_line = s.current_line + 1 })

-- `RETURN_TOKEN`
unfoldable pub return_token : {F : Type 0} → ℕ → Lex F ℕ
return_token t s = lexed t (record s { prev_token = s.cur_token; cur_token = t })

-- a new line between tokens, after the character
unfoldable pub line_token : {F : Type 0} → Lex F (Unit {0})
line_token s = lexed tt (record s {
  current_line = s.current_line + 1;
  prev_token = s.cur_token;
  cur_token = 10;
  current_column = 1;
})

unfoldable pub begin_token : {F : Type 0} → Lex F (Unit {0})
begin_token s = lexed tt (record s { token_line = s.current_line })

unfoldable pub set_string : {F : Type 0} → List ℕ → Lex F (Unit {0})
set_string text s = lexed tt (record s { string_value = text })

unfoldable pub set_int : {F : Type 0} → ℤ → Lex F (Unit {0})
set_int i s = lexed tt (record s { int_value = i })

-- the loop of `LexLineComment`, after its first character
unfoldable pub line_comment : {F : Type 0} → ℕ → Lex F (Unit {0})
unfolding cur_char on_char give no_fuel ◌>>=◌
line_comment zero = no_fuel
line_comment (suc f) = do
  c ← cur_char
  if c == 10 then give tt else on_char (give tt) λ d. line_comment f

-- `LexBlockComment`
unfoldable pub block_comment : {F : Type 0} → ℕ → Lex F (Unit {0})
unfolding cur_char on_char advance new_line lex_error no_fuel ◌>>=◌
block_comment zero = no_fuel
block_comment (suc f) = on_char (lex_error missing_comment_end) λ c.
    if c == b'*'
    then (do d ← cur_char; if d == b'/' then advance else block_comment f)
    else if c == 10
    then (new_line >> block_comment f)
    else block_comment f

-- the digits of `ProcessStringHexEscape`, at most so many, as the number that `strtoul` makes of them
unfoldable pub hex_digits : {F : Type 0} → ℕ → ℕ → Lex F ℕ
unfolding cur_char advance give ◌>>=◌
hex_digits zero value = give value
hex_digits (suc n) value = do
  c ← cur_char
  if is_hex_digit c
      then (advance
          >> hex_digits n (value * 16 + (if is_digit c then c - 48 else to_upper c - 65 + 10)))
      else give value

unfoldable pub hex_escape : {F : Type 0} → ℕ → Lex F ℕ
unfolding cur_char advance hex_digits lex_error ◌>>=◌
hex_escape n = do
  advance
  c ← cur_char
  if is_hex_digit c then hex_digits n 0 else lex_error hexadecimal_expected

-- the characters that an escape appends, after the backslash
unfoldable pub read_escape : {F : Type 0} → Lex F (List ℕ)
unfolding cur_char advance hex_escape add_utf8 lex_error give ◌>>=◌
read_escape = do
  c ← cur_char
  if c == b'x'
      then (do v ← hex_escape 2; give ((v % 256) ∷ []))
      else if c == b'u'
      then (do v ← hex_escape 4; give (add_utf8 v))
      else if c == b'U'
      then (do v ← hex_escape 8; give (add_utf8 v))
      else if c == b't'
      then (advance >> give (9 ∷ []))
      else if c == b'a'
      then (advance >> give (7 ∷ []))
      else if c == b'b'
      then (advance >> give (8 ∷ []))
      else if c == b'n'
      then (advance >> give (10 ∷ []))
      else if c == b'r'
      then (advance >> give (13 ∷ []))
      else if c == b'v'
      then (advance >> give (11 ∷ []))
      else if c == b'f'
      then (advance >> give (12 ∷ []))
      else if c == b'0'
      then (advance >> give (0 ∷ []))
      else if (c == 92) || (c == 34) || (c == 39)
      then (advance >> give (c ∷ []))
      else lex_error unrecognised_escape

-- the loops of `ReadString`, with the text so far
unfoldable pub string_loop : {F : Type 0} → ℕ → ℕ → Bool → List ℕ → Lex F (List ℕ)
unfolding cur_char advance on_char new_line read_escape lex_error give no_fuel ◌>>=◌
string_loop zero delimiter verbatim text = no_fuel
string_loop (suc f) delimiter verbatim text = on_char (lex_error unfinished_string) λ c.
    if c == delimiter
    then (do
      d ← cur_char
      if verbatim && (d == 34)
          then (advance >> string_loop f delimiter verbatim (text ++ 34 ∷ []))
          else give text)
    else if c == 10
    then (if verbatim
        then (new_line >> string_loop f delimiter verbatim (text ++ 10 ∷ []))
        else lex_error newline_in_constant)
    else if (c == 92) && not verbatim
    then (do l ← read_escape; string_loop f delimiter verbatim (text ++ l))
    else string_loop f delimiter verbatim (text ++ c ∷ [])

-- a character as the signed `SQChar`
unfoldable pub signed_char : ℕ → ℤ
signed_char c = if ltb c 128 then pos c else negsuc (255 - c)

-- the token of a text
unfoldable pub string_token : {F : Type 0} → ℕ → List ℕ → Lex F ℕ
unfolding set_string set_int signed_char lex_error give ◌>>=◌
string_token delimiter text =
    if delimiter == 39
    then elim text [
      | [] ↦ lex_error empty_constant
      | c ∷ l ↦ elim l [
        | [] ↦ (set_int (signed_char c) >> give 260)
        | d ∷ k ↦ lex_error constant_too_long
      ]
    ]
    else (set_string text >> give 259)

-- `ReadString`, after the first character; its `-1` is the error that `Lex` raises
unfoldable pub read_string : {F : Type 0} → ℕ → ℕ → Bool → Lex F ℕ
unfolding cur_char string_loop string_token lex_error ◌>>=◌
read_string f delimiter verbatim = do
  c ← cur_char
  if c == 0
      then lex_error parsing_string
      else (do text ← string_loop f delimiter verbatim []; string_token delimiter text)
