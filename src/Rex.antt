-- ===== src/Rex.antt =====
-- Regular expressions (sqstdrex.cpp): the nodes of a compiled expression and the tests of characters.
-- Characters are bytes, and `char_order` gives them the order of the signed type `SQChar`. A link is
-- the position of a node, and `none` is the `-1` of the source.
use sqnim.Prelude.{
  ℕ, ◌+◌, ◌-◌, Bool, true, false, not, ◌||◌, ◌&&◌, Option, ltb, leb, ◌==◌, if◌then◌else◌,
}
pub mod Node
pub mod Compile
pub mod Room
pub mod Match
pub mod Search
pub mod Bounds
pub mod Captures
pub mod Chars
pub mod Ends
pub mod Total
pub mod Range
pub mod Groups

-- `SQRexNodeType`: a character, or one of the codes above `MAX_CHAR`
pub data RexType : Type 0 where
  rex_char : ℕ → RexType
  op_greedy : RexType
  op_or : RexType
  op_expr : RexType
  op_nocapexpr : RexType
  op_dot : RexType
  op_class : RexType
  op_cclass : RexType
  op_nclass : RexType
  op_range : RexType
  op_eol : RexType
  op_bol : RexType
  op_wb : RexType
  op_mb : RexType

-- the number of a type, a character as its byte
unfoldable pub rex_code : RexType → ℕ
rex_code (rex_char c) = c
rex_code op_greedy = 256
rex_code op_or = 257
rex_code op_expr = 258
rex_code op_nocapexpr = 259
rex_code op_dot = 260
rex_code op_class = 261
rex_code op_cclass = 262
rex_code op_nclass = 263
rex_code op_range = 264
rex_code op_eol = 266
rex_code op_bol = 267
rex_code op_wb = 268
rex_code op_mb = 269

-- the order of the signed numbers, moved up by 128
unfoldable pub char_order : ℕ → ℕ
char_order c = if ltb c 128 then c + 128 else if ltb c 256 then c - 128 else c + 128

pub record RexNode : Type 0 where
  pub node_type : RexType
  pub left : Option ℕ
  pub right : Option ℕ
  pub next : Option ℕ

-- the tests of the C library, on bytes
pub record CharTypes : Type 0 where
  pub is_print : ℕ → Bool
  pub is_alpha : ℕ → Bool
  pub is_alnum : ℕ → Bool
  pub is_space : ℕ → Bool
  pub is_digit : ℕ → Bool
  pub is_xdigit : ℕ → Bool
  pub is_cntrl : ℕ → Bool
  pub is_punct : ℕ → Bool
  pub is_lower : ℕ → Bool
  pub is_upper : ℕ → Bool

-- `sqstd_rex_matchcclass`
unfoldable pub match_cclass : CharTypes → ℕ → ℕ → Bool
match_cclass t cclass c =
    if cclass == b'a'
    then t.is_alpha c
    else if cclass == b'A'
    then not (t.is_alpha c)
    else if cclass == b'w'
    then t.is_alnum c || (c == b'_')
    else if cclass == b'W'
    then not (t.is_alnum c) && not (c == b'_')
    else if cclass == b's'
    then t.is_space c
    else if cclass == b'S'
    then not (t.is_space c)
    else if cclass == b'd'
    then t.is_digit c
    else if cclass == b'D'
    then not (t.is_digit c)
    else if cclass == b'x'
    then t.is_xdigit c
    else if cclass == b'X'
    then not (t.is_xdigit c)
    else if cclass == b'c'
    then t.is_cntrl c
    else if cclass == b'C'
    then not (t.is_cntrl c)
    else if cclass == b'p'
    then t.is_punct c
    else if cclass == b'P'
    then not (t.is_punct c)
    else if cclass == b'l'
    then t.is_lower c
    else if cclass == b'u'
    then t.is_upper c
    else false
