-- ===== src/Lexer/Token.antt =====
-- `SQLexer::Lex` and `ReadID` (sqlexer.cpp). Every case of `Lex` begins with `NEXT()`, which stands
-- here in front of the cases; the texts of operators and their tokens are those of sqcompiler.h.
use sqnim.Lexer.{Scan, ok, err, Number, integer, float, read_number, is_digit}
use sqnim.Lexer.Steps.{
  unexpected_control, invalid_dots, bad_number, lexed, failed, Lex, ◌>>=◌, ◌>>◌, give, lex_error,
  no_fuel, cur_char, advance, on_char, return_token, line_token, begin_token, set_string,
  line_comment, block_comment, read_string,
}
use sqnim.Prelude.{
  ℕ, zero, suc, ◌+◌, ◌-◌, Bool, true, false, ◌||◌, Option, none, some, List, [], ◌∷◌, ◌++◌, length,
  ◌==◌, if◌then◌else◌,
}

-- the C library's tests of characters
pub record LexTypes : Type 0 where
  pub alpha : ℕ → Bool
  pub alnum : ℕ → Bool
  pub cntrl : ℕ → Bool

-- a token for a character that follows, and one if it does not
unfoldable pub one_or_two : {F : Type 0} → ℕ → ℕ → ℕ → Lex F ℕ
unfolding cur_char advance return_token ◌>>=◌
one_or_two second two one = do
  c ← cur_char
  if c == second then (advance >> return_token two) else return_token one

-- after `<`
unfoldable pub less_token : {F : Type 0} → Lex F ℕ
unfolding cur_char advance return_token one_or_two ◌>>=◌
less_token = do
  c ← cur_char
  if c == b'='
      then (advance >> one_or_two b'>' 305 266)
      else if c == b'-'
      then (advance >> return_token 281)
      else if c == b'<'
      then (advance >> return_token 296)
      else if c == b'/'
      then (advance >> return_token 320)
      else return_token b'<'

-- after `>`
unfoldable pub greater_token : {F : Type 0} → Lex F ℕ
unfolding cur_char advance return_token one_or_two ◌>>=◌
greater_token = do
  c ← cur_char
  if c == b'='
      then (advance >> return_token 267)
      else if c == b'>'
      then (advance >> one_or_two b'>' 306 297)
      else return_token b'>'

-- after `.`
unfoldable pub dots_token : {F : Type 0} → Lex F ℕ
unfolding cur_char advance return_token lex_error ◌>>=◌
dots_token = do
  c ← cur_char
  if c == b'.'
      then (do
        advance
        d ← cur_char
        if d == b'.' then (advance >> return_token 312) else lex_error invalid_dots)
      else return_token b'.'

-- after `-` and `+`
unfoldable pub sign_token : {F : Type 0} → ℕ → ℕ → ℕ → Lex F ℕ
unfolding cur_char advance return_token ◌>>=◌
sign_token sign equal twice = do
  c ← cur_char
  if c == b'='
      then (advance >> return_token equal)
      else if c == sign
      then (advance >> return_token twice)
      else return_token sign

unfoldable pub is_single : ℕ → Bool
is_single c =
    (c == b'{')
    || (c == b'}')
    || (c == b'(')
    || (c == b')')
    || (c == b'[')
    || (c == b']')
    || (c == b';')
    || (c == b',')
    || (c == b'?')
    || (c == b'^')
    || (c == b'~')

module _ {F : Type 0} (strtod : List ℕ → F) (types : LexTypes) (keywords : List ℕ → Option ℕ) where
  -- the result of `ReadNumber`, with the value and as many columns as characters
  unfoldable pub scanned : ℕ → Scan (Number F) → Lex F ℕ
  scanned before (err e) s = failed bad_number
  scanned before (ok (integer i) rest) s = lexed 260 (record s {
    input = rest;
    current_column = s.current_column + (before - length rest);
    int_value = i;
  })
  scanned before (ok (float x) rest) s = lexed 261 (record s {
    input = rest;
    current_column = s.current_column + (before - length rest);
    float_value = some x;
  })

  unfoldable pub number_token : ℕ → Lex F ℕ
  unfolding scanned read_number
  number_token first s = scanned (length s.input) (read_number strtod first s.input) s

  -- the loop of `ReadID`, with the text so far
  unfoldable pub word_loop : ℕ → List ℕ → Lex F (List ℕ)
  unfolding cur_char on_char give no_fuel ◌>>=◌
  word_loop zero text = no_fuel
  word_loop (suc f) text = do
    c ← cur_char
    if types.alnum c || (c == b'_')
        then (on_char (give text) λ d. word_loop f (text ++ d ∷ []))
        else give text

  -- `GetIDType`
  unfoldable pub get_id_type : List ℕ → ℕ
  get_id_type text = elim (keywords text) [ none ↦ 258 | some t ↦ t ]

  -- `ReadID`, after the first character
  unfoldable pub read_id : ℕ → ℕ → Lex F ℕ
  unfolding word_loop get_id_type set_string give ◌>>=◌
  read_id f first = do
    text ← word_loop f (first ∷ [])
    let t = get_id_type text
    if (t == 258) || (t == 310) then (set_string text >> give t) else give t

  -- after `/`, where `again` goes on with the next token
  unfoldable pub slash_token : ℕ → Lex F ℕ → Lex F ℕ
  unfolding cur_char advance block_comment line_comment return_token ◌>>=◌
  slash_token f again = do
    c ← cur_char
    if c == b'*'
        then (advance >> (block_comment f >> again))
        else if c == b'/'
        then (advance >> (line_comment f >> again))
        else if c == b'='
        then (advance >> return_token 318)
        else if c == b'>'
        then (advance >> return_token 321)
        else return_token b'/'

  -- after `@`
  unfoldable pub verbatim_token : ℕ → Lex F ℕ
  unfolding cur_char advance read_string return_token ◌>>=◌
  verbatim_token f = do
    c ← cur_char
    if c == 34 then (do advance; t ← read_string f 34 true; return_token t) else return_token b'@'

  -- the characters that no other case takes
  unfoldable pub other_token : ℕ → ℕ → Lex F ℕ
  unfolding number_token read_id return_token lex_error ◌>>=◌
  other_token f c =
      if is_digit c
      then (do t ← number_token c; return_token t)
      else if types.alpha c || (c == b'_')
      then (do t ← read_id f c; return_token t)
      else if types.cntrl c
      then lex_error unexpected_control
      else return_token c

  -- the cases of `Lex`, after the character `c`
  unfoldable pub lex_after : ℕ → Lex F ℕ → ℕ → Lex F ℕ
  unfolding line_token line_comment slash_token one_or_two less_token greater_token verbatim_token
      read_string dots_token sign_token other_token is_single return_token ◌>>=◌
  lex_after f again c =
      if (c == 9) || (c == 13) || (c == 32)
      then again
      else if c == 10
      then (line_token >> again)
      else if c == b'#'
      then (line_comment f >> again)
      else if c == b'/'
      then slash_token f again
      else if c == b'='
      then one_or_two b'=' 264 b'='
      else if c == b'<'
      then less_token
      else if c == b'>'
      then greater_token
      else if c == b'!'
      then one_or_two b'=' 265 b'!'
      else if c == b'@'
      then verbatim_token f
      else if (c == 34) || (c == 39)
      then (do t ← read_string f c false; return_token t)
      else if is_single c
      then return_token c
      else if c == b'.'
      then dots_token
      else if c == b'&'
      then one_or_two b'&' 269 b'&'
      else if c == b'|'
      then one_or_two b'|' 270 b'|'
      else if c == b':'
      then one_or_two b':' 299 b':'
      else if c == b'*'
      then one_or_two b'=' 317 b'*'
      else if c == b'%'
      then one_or_two b'=' 319 b'%'
      else if c == b'-'
      then sign_token b'-' 289 304
      else if c == b'+'
      then sign_token b'+' 288 303
      else other_token f c

  -- the loop of `Lex`
  unfoldable pub lex_loop : ℕ → Lex F ℕ
  unfolding on_char lex_after give no_fuel
  lex_loop zero = no_fuel
  lex_loop (suc f) = on_char (give 0) (lex_after f (lex_loop f))

  unfoldable pub lex : ℕ → Lex F ℕ
  unfolding begin_token lex_loop ◌>>=◌
  lex f = begin_token >> lex_loop f
