-- ===== src/Lexer/Progress.antt =====
-- What the lexer leaves of its input.
use sqnim.Lexer.{current}
use sqnim.Lexer.Steps.{
  LexState, TokenError, Lexed, lexed, failed, spent, Lex, ◌>>=◌, give, lex_error, cur_char,
  after_char, advance, on_char, new_line, return_token, line_token, begin_token, set_string,
  set_int, line_comment, block_comment, hex_digits, hex_escape, read_escape, string_loop,
  string_token, read_string,
}
use sqnim.Lexer.Token.{one_or_two, less_token, greater_token, dots_token, sign_token}
use sqnim.Prelude.Int.{ℤ}
use sqnim.Prelude.{
  ℕ, zero, suc, ◌≤◌, ◌<◌, ◌≡◌, inl, inr, Bool, true, false, List, [], ◌∷◌, length, ◌==◌,
  if◌then◌else◌, arith, Bool-cases,
}

-- a step has fuel enough, and what it leaves is shorter than `k`
abbrev pub Leaves : {F A : Type 0} → ℕ → Lexed F A → Type 0
Leaves k (lexed a t) = length t.input < k
Leaves k (failed e) = Unit {0}
Leaves k spent = ⊥

-- so does it from any input that is shorter than `k`
unfoldable pub Bounded : {F A : Type 0} → ℕ → Lex F A → Type 0
Bounded k m = (s : LexState _) → length s.input < k → Leaves k (m s)

module _ (F : Type 0) (k : ℕ) where
  pub >>=-Bounded :
      {A B : Type 0} (m : Lex F A) (f : A → Lex F B)
      → Bounded k m
      → ((a : A) → Bounded k (f a))
      → Bounded k (m >>= f)
  unfolding Bounded ◌>>=◌
  >>=-Bounded m f h g s short = bound (m s) (h s short)
    where
      bound :
          (r : Lexed F _)
          → Leaves k r
          → Leaves k (elim r [ lexed a t ↦ f a t | failed e ↦ failed e | spent ↦ spent ])
      bound (lexed a t) w = g a t w
      bound (failed e) w = tt
      bound spent w = absurd w

  pub if-Bounded :
      {A : Type 0} (b : Bool) (m n : Lex F A)
      → Bounded k m
      → Bounded k n
      → Bounded k (if b then m else n)
  if-Bounded true m n h g = h
  if-Bounded false m n h g = g

  pub give-Bounded : {A : Type 0} (a : A) → Bounded k (give {F = F} a)
  unfolding Bounded give
  give-Bounded a s short = short

  pub lex_error-Bounded : (A : Type 0) (e : TokenError) → Bounded k (lex_error {F = F} {A = A} e)
  unfolding Bounded lex_error
  lex_error-Bounded A e s short = tt

  pub cur_char-Bounded : Bounded k (cur_char {F = F})
  unfolding Bounded cur_char
  cur_char-Bounded s short = short

  pub advance-Bounded : Bounded k (advance {F = F})
  unfolding Bounded advance
  advance-Bounded s short = shorter s.input short
    where
      shorter : (l : List ℕ) → length l < k → length (after_char l) < k
      shorter [] h = h
      shorter (c ∷ l) h = omega (arith, h)

  pub new_line-Bounded : Bounded k (new_line {F = F})
  unfolding Bounded new_line
  new_line-Bounded s short = short

  pub return_token-Bounded : (t : ℕ) → Bounded k (return_token {F = F} t)
  unfolding Bounded return_token
  return_token-Bounded t s short = short

  pub line_token-Bounded : Bounded k (line_token {F = F})
  unfolding Bounded line_token
  line_token-Bounded s short = short

  pub begin_token-Bounded : Bounded k (begin_token {F = F})
  unfolding Bounded begin_token
  begin_token-Bounded s short = short

  pub set_string-Bounded : (text : List ℕ) → Bounded k (set_string {F = F} text)
  unfolding Bounded set_string
  set_string-Bounded text s short = short

  pub set_int-Bounded : (i : ℤ) → Bounded k (set_int {F = F} i)
  unfolding Bounded set_int
  set_int-Bounded i s short = short

-- a character that is passed leaves less
pub after_char-short :
    (l : List ℕ) (k : ℕ) → length l < suc k → (current l == 0) ≡ false → length (after_char l) < k
after_char-short [] k h n = cc
after_char-short (c ∷ l) k h n = omega (arith, h)

pub Leaves-weaker : {F A : Type 0} (k : ℕ) (r : Lexed F A) → Leaves k r → Leaves (suc k) r
Leaves-weaker k (lexed a t) w = omega (arith, w)
Leaves-weaker k (failed e) w = tt
Leaves-weaker k spent w = absurd w

pub on_char-Bounded :
    {F A : Type 0} (k : ℕ) (at_end : Lex F A) (more : ℕ → Lex F A)
    → Bounded (suc k) at_end
    → ((c : ℕ) → Bounded k (more c))
    → Bounded (suc k) (on_char at_end more)
unfolding Bounded on_char advance ◌>>=◌
on_char-Bounded k at_end more h g s short = elim (Bool-cases (current s.input == 0)) [
  | inl done ↦ rw done (h s short)
  | inr going ↦
      rw going (Leaves-weaker k _ (g (current s.input) _ (after_char-short s.input k short going)))
]

pub Bounded-zero : {F A : Type 0} (m : Lex F A) → Bounded 0 m
unfolding Bounded
Bounded-zero m s short = absurd (omega (arith, short))

pub ruleset bounded = (
  >>=-Bounded, if-Bounded, give-Bounded, lex_error-Bounded, cur_char-Bounded, advance-Bounded,
  new_line-Bounded, return_token-Bounded, line_token-Bounded, begin_token-Bounded,
  set_string-Bounded, set_int-Bounded,
)

module _ (F : Type 0) where
  pub line_comment-Bounded : (f k : ℕ) → k ≤ f → Bounded k (line_comment {F = F} f)
  unfolding line_comment
  line_comment-Bounded f zero le = Bounded-zero _
  line_comment-Bounded zero (suc k) le = absurd (omega (arith, le))
  line_comment-Bounded (suc f) (suc k) le =
      search (bounded, on_char-Bounded, line_comment-Bounded f k (omega (arith, le))) depth 30

  pub block_comment-Bounded : (f k : ℕ) → k ≤ f → Bounded k (block_comment {F = F} f)
  unfolding block_comment
  block_comment-Bounded f zero le = Bounded-zero _
  block_comment-Bounded zero (suc k) le = absurd (omega (arith, le))
  block_comment-Bounded (suc f) (suc k) le =
      search (bounded, on_char-Bounded, block_comment-Bounded f k (omega (arith, le))) depth 30

  pub hex_digits-Bounded : (k n value : ℕ) → Bounded k (hex_digits {F = F} n value)
  unfolding hex_digits
  hex_digits-Bounded k zero value = give-Bounded F k value
  hex_digits-Bounded k (suc n) value = search (bounded, hex_digits-Bounded k n) depth 30

  pub hex_escape-Bounded : (k n : ℕ) → Bounded k (hex_escape {F = F} n)
  unfolding hex_escape
  hex_escape-Bounded k n = search (bounded, hex_digits-Bounded) depth 30

  pub read_escape-Bounded : (k : ℕ) → Bounded k (read_escape {F = F})
  unfolding read_escape
  read_escape-Bounded k = search (bounded, hex_escape-Bounded) depth 50

  pub string_loop-Bounded :
      (f k delimiter : ℕ) (verbatim : Bool) (text : List ℕ)
      → k ≤ f
      → Bounded k (string_loop {F = F} f delimiter verbatim text)
  unfolding string_loop
  string_loop-Bounded f zero delimiter verbatim text le = Bounded-zero _
  string_loop-Bounded zero (suc k) delimiter verbatim text le = absurd (omega (arith, le))
  string_loop-Bounded (suc f) (suc k) delimiter verbatim text le =
      let again =
        λ (t : List ℕ). string_loop-Bounded f k delimiter verbatim t (omega (arith, le)) in
      search (bounded, on_char-Bounded, read_escape-Bounded, again) depth 50

  pub string_token-Bounded :
      (k delimiter : ℕ) (text : List ℕ) → Bounded k (string_token {F = F} delimiter text)
  unfolding string_token
  string_token-Bounded k delimiter [] = search bounded depth 30
  string_token-Bounded k delimiter (c ∷ []) = search bounded depth 30
  string_token-Bounded k delimiter (c ∷ d ∷ l) = search bounded depth 30

  pub read_string-Bounded :
      (f k delimiter : ℕ) (verbatim : Bool)
      → k ≤ f
      → Bounded k (read_string {F = F} f delimiter verbatim)
  unfolding read_string
  read_string-Bounded f k delimiter verbatim le =
      search (bounded, string_loop-Bounded f k delimiter verbatim [] le, string_token-Bounded) depth
        30

  pub one_or_two-Bounded : (k second two one : ℕ) → Bounded k (one_or_two {F = F} second two one)
  unfolding one_or_two
  one_or_two-Bounded k second two one = search bounded depth 30

  pub less_token-Bounded : (k : ℕ) → Bounded k (less_token {F = F})
  unfolding less_token
  less_token-Bounded k = search (bounded, one_or_two-Bounded) depth 30

  pub greater_token-Bounded : (k : ℕ) → Bounded k (greater_token {F = F})
  unfolding greater_token
  greater_token-Bounded k = search (bounded, one_or_two-Bounded) depth 30

  pub dots_token-Bounded : (k : ℕ) → Bounded k (dots_token {F = F})
  unfolding dots_token
  dots_token-Bounded k = search bounded depth 30

  pub sign_token-Bounded :
      (k sign equal twice : ℕ) → Bounded k (sign_token {F = F} sign equal twice)
  unfolding sign_token
  sign_token-Bounded k sign equal twice = search bounded depth 30
