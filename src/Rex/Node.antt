-- ===== src/Rex/Node.antt =====
-- The state of the compiler of regular expressions and its steps on characters and nodes
-- (sqstdrex.cpp). The pattern is the memory from its first character on; an error is the `longjmp` to
-- `sqstd_rex_compile`.
use sqnim.Prelude.{
  ℕ, ◌+◌, ◌*◌, Bool, true, false, not, ◌||◌, ◌&&◌, Option, none, some, List, [], ◌∷◌, ◌++◌, length,
  get_elem?, set, ltb, ◌==◌, if◌then◌else◌,
}
use sqnim.Rex.{RexType, rex_char, op_expr, op_cclass, op_wb, op_mb, RexNode, CharTypes}

-- the messages of the errors
pub data RexError : Type 0 where
  expected_paren : RexError
  letter_expected : RexError
  balanced_expected : RexError
  same_balanced : RexError
  escape_expected : RexError
  empty_class : RexError
  unfinished_range : RexError
  invalid_range : RexError
  class_in_range : RexError
  overflow_constant : RexError
  number_expected : RexError
  comma_expected : RexError
  unexpected_character : RexError

pub record RexState : Type 0 where
  pub p : ℕ
  pub nodes : List RexNode
  pub nallocated : ℕ
  pub nsubexpr : ℕ

-- a step ends with a result, with an error, or for want of fuel; the state is the last one
pub data Parsed (A : Type 0) : Type 0 where
  parsed : A → RexState → Parsed A
  failed : RexError → RexState → Parsed A
  spent : RexState → Parsed A

abbrev pub Parser : Type 0 → Type 0
Parser A = RexState → Parsed A

infixl 5 ◌>>=◌ ◌>>◌
unfoldable pub give : {A : Type 0} → A → Parser A
give a s = parsed a s

unfoldable pub ◌>>=◌ : {A B : Type 0} → Parser A → (A → Parser B) → Parser B
(first >>= next) s = elim (first s) [
  | parsed a t ↦ next a t
  | failed e t ↦ failed e t
  | spent t ↦ spent t
]

abbrev pub ◌>>◌ : {B : Type 0} → Parser (Unit {0}) → Parser B → Parser B
first >> second = first >>= λ _. second

-- `sqstd_rex_error`, and no fuel
unfoldable pub rex_error : {A : Type 0} → RexError → Parser A
rex_error e s = failed e s

unfoldable pub no_fuel : {A : Type 0} → Parser A
no_fuel s = spent s

-- `exp->_p++`
unfoldable pub skip : Parser (Unit {0})
skip s = parsed tt (record s { p = s.p + 1 })

unfoldable pub is_expr : RexType → Bool
is_expr op_expr = true
is_expr _ = false

-- `sqstd_rex_newnode`
unfoldable pub new_node : RexType → Parser ℕ
unfolding is_expr
new_node type s =
    let size = length s.nodes in
    let node : RexNode = record {
      node_type = type;
      left = none;
      right = if is_expr type then some s.nsubexpr else none;
      next = none;
    } in
    parsed size (record s {
      nodes = s.nodes ++ node ∷ [];
      nallocated = if ltb s.nallocated (size + 1) then s.nallocated * 2 else s.nallocated;
      nsubexpr = if is_expr type then s.nsubexpr + 1 else s.nsubexpr;
    })

-- an assignment to fields of a node
unfoldable pub change_node : ℕ → (RexNode → RexNode) → Parser (Unit {0})
change_node i change s = elim (get_elem? s.nodes i) [
  | none ↦ parsed tt s
  | some n ↦ parsed tt (record s { nodes = set s.nodes i (change n) })
]

unfoldable pub set_left : ℕ → Option ℕ → Parser (Unit {0})
unfolding change_node
set_left i link = change_node i λ n. record n { left = link }

unfoldable pub set_right : ℕ → Option ℕ → Parser (Unit {0})
unfolding change_node
set_right i link = change_node i λ n. record n { right = link }

unfoldable pub set_next : ℕ → Option ℕ → Parser (Unit {0})
unfolding change_node
set_next i link = change_node i λ n. record n { next = link }

-- the type of a node
unfoldable pub type_of : ℕ → Parser RexType
type_of i s = elim (get_elem? s.nodes i) [
  | none ↦ parsed (rex_char 0) s
  | some n ↦ parsed n.node_type s
]

unfoldable pub next_of : ℕ → Parser (Option ℕ)
next_of i s = elim (get_elem? s.nodes i) [ none ↦ parsed none s | some n ↦ parsed n.next s ]

-- `SQREX_SYMBOL_ESCAPE_CHAR`
abbrev pub backslash : ℕ
backslash = 92

module _ (types : CharTypes) (pattern : ℕ → ℕ) where
  -- `*exp->_p`
  unfoldable pub current : Parser ℕ
  current s = parsed (pattern s.p) s

  -- `sqstd_rex_expect`
  unfoldable pub expect : ℕ → Parser (Unit {0})
  unfolding current skip rex_error ◌>>=◌
  expect n = do c ← current; if c == n then skip else rex_error expected_paren

  -- `*exp->_p++`
  unfoldable pub take_char : Parser ℕ
  unfolding current skip give ◌>>=◌
  take_char = do c ← current; skip; give c

  -- `sqstd_rex_escapechar`
  unfoldable pub escape_char : Parser ℕ
  unfolding current skip take_char rex_error give ◌>>=◌
  escape_char = do
    c ← current
    if c == backslash
        then (do
          skip
          e ← take_char
          give (
              if e == b'v'
              then 11
              else if e == b'n'
              then 10
              else if e == b't'
              then 9
              else if e == b'r'
              then 13
              else if e == b'f'
              then 12
              else e))
        else if types.is_print c
        then take_char
        else rex_error letter_expected

  -- `sqstd_rex_charclass`
  unfoldable pub char_class : ℕ → Parser ℕ
  unfolding new_node set_left give ◌>>=◌
  char_class classid = do n ← new_node op_cclass; set_left n (some classid); give n

  -- the letters of classes
  unfoldable pub is_class_letter : ℕ → Bool
  is_class_letter c =
      (c == b'a')
      || (c == b'A')
      || (c == b'w')
      || (c == b'W')
      || (c == b's')
      || (c == b'S')
      || (c == b'd')
      || (c == b'D')
      || (c == b'x')
      || (c == b'X')
      || (c == b'c')
      || (c == b'C')
      || (c == b'p')
      || (c == b'P')
      || (c == b'l')
      || (c == b'u')

  -- `\m` with its two characters
  unfoldable pub balanced_node : Parser ℕ
  unfolding current skip new_node set_left set_right rex_error give ◌>>=◌
  balanced_node = do
    skip
    cb ← current
    skip
    ce ← current
    skip
    if (cb == 0) || (ce == 0)
        then rex_error balanced_expected
        else if cb == ce
        then rex_error same_balanced
        else (do
          node ← new_node op_mb
          set_left node (some cb)
          set_right node (some ce)
          give node)

  -- `\b` and `\B`
  unfoldable pub boundary_node : Parser ℕ
  unfolding new_node take_char set_left give ◌>>=◌
  boundary_node = do node ← new_node op_wb; c ← take_char; set_left node (some c); give node

  -- what stands after a backslash
  unfoldable pub escaped_node : Bool → ℕ → Parser ℕ
  unfolding is_class_letter char_class balanced_node boundary_node new_node skip rex_error ◌>>=◌
  escaped_node is_class c =
      if c == b'n'
      then (skip >> new_node (rex_char 10))
      else if c == b't'
      then (skip >> new_node (rex_char 9))
      else if c == b'r'
      then (skip >> new_node (rex_char 13))
      else if c == b'f'
      then (skip >> new_node (rex_char 12))
      else if c == b'v'
      then (skip >> new_node (rex_char 11))
      else if is_class_letter c
      then (skip >> char_class c)
      else if c == b'm'
      then balanced_node
      else if c == 0
      then rex_error escape_expected
      else if ((c == b'b') || (c == b'B')) && not is_class
      then boundary_node
      else (skip >> new_node (rex_char c))

  -- `sqstd_rex_charnode`
  unfoldable pub char_node : Bool → Parser ℕ
  unfolding current skip escaped_node take_char new_node rex_error ◌>>=◌
  char_node is_class = do
    c ← current
    if c == backslash
        then (do skip; e ← current; escaped_node is_class e)
        else if types.is_print c
        then (do t ← take_char; new_node (rex_char t))
        else rex_error letter_expected
