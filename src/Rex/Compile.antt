-- ===== src/Rex/Compile.antt =====
-- The compiler of regular expressions (sqstdrex.cpp): classes, elements with their repetition, lists of
-- elements with branches, and `sqstd_rex_compile`.
use sqnim.Prelude.{
  ℕ, zero, suc, ◌+◌, ◌*◌, ◌-◌, ◌%◌, Bool, true, false, ◌||◌, Option, none, some, [], ltb, ◌==◌,
  if◌then◌else◌,
}
use sqnim.Rex.Node.{
  RexState, empty_class, unfinished_range, invalid_range, class_in_range, overflow_constant,
  number_expected, comma_expected, unexpected_character, Parsed, Parser, ◌>>=◌, ◌>>◌, give,
  rex_error, no_fuel, skip, new_node, set_left, set_right, set_next, type_of, next_of, current,
  expect, take_char, escape_char, char_node,
}
use sqnim.Rex.{
  RexType, op_greedy, op_or, op_expr, op_nocapexpr, op_dot, op_class, op_cclass, op_nclass,
  op_range, op_eol, op_bol, rex_code, char_order, CharTypes,
}

unfoldable pub is_cclass : RexType → Bool
is_cclass op_cclass = true
is_cclass _ = false

-- how often an element stands, `p0` times to `p1` times
abbrev pub no_limit : ℕ
no_limit = 65535

module _ (types : CharTypes) (pattern : ℕ → ℕ) where
  -- `nodes[chain].next = first` if there is a first node
  unfoldable pub link_first : ℕ → Option ℕ → Parser (Unit {0})
  unfolding set_next give
  link_first chain none = give tt
  link_first chain (some c) = set_next chain (some c)

  -- a range from the node `first` on, after the `-`
  unfoldable pub range_node : ℕ → ℕ → Parser ℕ
  unfolding current take_char new_node type_of char_order rex_code is_cclass escape_char set_left
      set_right set_next rex_error give ◌>>=◌
  range_node chain first = do
    minus ← take_char types pattern
    if minus == b']' then rex_error unfinished_range else (do
      r ← new_node op_range
      type ← type_of first
      c ← current types pattern
      if ltb (char_order c) (char_order (rex_code type))
          then rex_error invalid_range
          else if is_cclass type
          then rex_error class_in_range
          else (do
            set_left r (some (rex_code type))
            t ← escape_char types pattern
            set_right r (some t)
            set_next chain (some r)
            give r))

  -- the loop of `sqstd_rex_class`, which gives the last node
  unfoldable pub class_loop : ℕ → ℕ → Option ℕ → Parser (Unit {0})
  unfolding current range_node link_first char_node give no_fuel ◌>>=◌
  class_loop zero chain first = no_fuel
  class_loop (suc f) chain first = do
    c ← current types pattern
    if c == b']' then link_first chain first else elim first [
      | none ↦ (do n ← char_node types pattern true; class_loop f chain (some n))
      | some n ↦ if c == b'-' then (do r ← range_node chain n; class_loop f r none) else (do
        link_first chain (some n)
        m ← char_node types pattern true
        class_loop f n (some m))
    ]

  -- `sqstd_rex_class`
  unfoldable pub rex_class : ℕ → Parser ℕ
  unfolding current skip new_node class_loop next_of set_left set_next rex_error give ◌>>=◌
  rex_class f = do
    c ← current types pattern
    ret ← (if c == b'^' then (new_node op_nclass >>= λ n. skip >> give n) else new_node op_class)
    d ← current types pattern
    if d == b']' then rex_error empty_class else (do
      class_loop f ret none
      first ← next_of ret
      set_left ret first
      set_next ret none
      give ret)

  -- the digits of a number after the first one
  unfoldable pub digits_loop : ℕ → ℕ → ℕ → Parser ℕ
  unfolding current take_char rex_error give no_fuel ◌>>=◌
  digits_loop zero ret positions = no_fuel
  digits_loop (suc f) ret positions = do
    c ← current types pattern
    if types.is_digit c
        then (do
          d ← take_char types pattern
          if positions == 1000000000
              then rex_error overflow_constant
              else digits_loop f (ret * 10 + (d - b'0')) (positions * 10))
        else give ret

  -- `sqstd_rex_parsenumber`
  unfoldable pub parse_number : ℕ → Parser ℕ
  unfolding take_char digits_loop ◌>>=◌
  parse_number f = do c ← take_char types pattern; digits_loop f (c - b'0') 10

  -- `{n}`, `{n,}` and `{n,m}`, after the brace
  unfoldable pub parse_bounds : ℕ → Parser (ℕ × ℕ)
  unfolding current skip expect parse_number rex_error give ◌>>=◌
  parse_bounds f = do
    c ← current types pattern
    if types.is_digit c
        then (do
          n ← parse_number f
          let p0 = n % 65536
          d ← current types pattern
          if d == b'}'
              then (skip >> give (p0, p0))
              else if d == b','
              then (do
                skip
                e ← current types pattern
                p1 ←
                    (if types.is_digit e
                      then (parse_number f >>= λ m. give (m % 65536))
                      else give no_limit)
                expect types pattern b'}'
                give (p0, p1))
              else rex_error comma_expected)
        else rex_error number_expected

  -- the repetition that stands after an element
  unfoldable pub parse_greedy : ℕ → Parser (Option (ℕ × ℕ))
  unfolding current skip parse_bounds give ◌>>=◌
  parse_greedy f = do
    c ← current types pattern
    if c == b'*'
        then (skip >> give (some (0, no_limit)))
        else if c == b'+'
        then (skip >> give (some (1, no_limit)))
        else if c == b'?'
        then (skip >> give (some (0, 1)))
        else if c == b'{'
        then (do skip; b ← parse_bounds f; give (some b))
        else give none

  -- the node of a repetition around `ret`
  unfoldable pub greedy_node : ℕ → Option (ℕ × ℕ) → Parser ℕ
  unfolding new_node set_left set_right give ◌>>=◌
  greedy_node ret none = give ret
  greedy_node ret (some (p0, p1)) = do
    nnode ← new_node op_greedy
    set_left nnode (some ret)
    set_right nnode (some (p0 * 65536 + p1))
    give nnode

  -- a group, after the parenthesis
  unfoldable pub rex_group : Parser ℕ → Parser ℕ
  unfolding current skip expect new_node set_left give ◌>>=◌
  rex_group list = do
    c ← current types pattern
    expr ←
        (if c == b'?'
          then (skip >> (expect types pattern b':' >> new_node op_nocapexpr))
          else new_node op_expr)
    newn ← list
    set_left expr (some newn)
    expect types pattern b')'
    give expr

  -- the element itself
  unfoldable pub rex_atom : ℕ → Parser ℕ → Parser ℕ
  unfolding current skip expect new_node rex_group rex_class char_node give ◌>>=◌
  rex_atom f list = do
    c ← current types pattern
    if c == b'('
        then (skip >> rex_group list)
        else if c == b'['
        then (do skip; n ← rex_class f; expect types pattern b']'; give n)
        else if c == b'$'
        then (skip >> new_node op_eol)
        else if c == b'.'
        then (skip >> new_node op_dot)
        else char_node types pattern false

  unfoldable pub ends_list : ℕ → Bool
  ends_list c = (c == b'|') || (c == b')') || (c == b'*') || (c == b'+') || (c == 0)

  -- `sqstd_rex_element`, which calls `list` and itself
  unfoldable pub element_body : ℕ → Parser ℕ → Parser ℕ → Parser ℕ
  unfolding current rex_atom parse_greedy greedy_node ends_list set_next give ◌>>=◌
  element_body f list element = do
    atom ← rex_atom f list
    bounds ← parse_greedy f
    ret ← greedy_node atom bounds
    c ← current types pattern
    if ends_list c then give ret else (do nnode ← element; set_next ret (some nnode); give ret)

  -- `sqstd_rex_list`, which calls `element` and itself
  unfoldable pub list_body : Parser ℕ → Parser ℕ → Parser ℕ
  unfolding current skip new_node set_next set_left set_right give ◌>>=◌
  list_body element list = do
    c ← current types pattern
    ret ←
        (if c == b'^'
          then (do skip; bol ← new_node op_bol; e ← element; set_next bol (some e); give bol)
          else element)
    d ← current types pattern
    if d == b'|'
        then (do
          skip
          temp ← new_node op_or
          set_left temp (some ret)
          tright ← list
          set_right temp (some tright)
          give temp)
        else give ret

  unfoldable mutual
    unfolding element_body list_body no_fuel

    pub rex_element : ℕ → Parser ℕ
    rex_element zero = no_fuel
    rex_element (suc f) = element_body f (rex_list f) (rex_element f)

    pub rex_list : ℕ → Parser ℕ
    rex_list zero = no_fuel
    rex_list (suc f) = list_body (rex_element f) (rex_list f)

  -- the state that `sqstd_rex_compile` begins with
  unfoldable pub new_rex : ℕ → RexState
  new_rex size = record { p = 0; nodes = []; nallocated = size; nsubexpr = 0 }

  -- `sqstd_rex_compile` of a pattern of `size` characters, up to the allocation of the matches
  unfoldable pub rex_compile : ℕ → ℕ → Parsed ℕ
  unfolding new_rex new_node rex_list set_left current give rex_error ◌>>=◌
  rex_compile f size =
      (do
        first ← new_node op_expr
        res ← rex_list f
        set_left first (some res)
        c ← current types pattern
        if c == 0 then give first else rex_error unexpected_character)
        (new_rex size)
