-- ===== src/Rex/Room.antt =====
-- The memory of the nodes that `sqstd_rex_compile` allocates.
use sqnim.Prelude.{
  ℕ, zero, suc, ◌+◌, ◌≤◌, ◌<◌, inl, inr, Bool, true, false, Option, none, some, length,
  length-append, length-set, get_elem?, set, ltb, ◌==◌, if◌then◌else◌, arith, Bool-cases,
}
use sqnim.Rex.Compile.{
  link_first, range_node, class_loop, rex_class, digits_loop, parse_number, parse_bounds,
  parse_greedy, greedy_node, rex_group, rex_atom, element_body, list_body, rex_element, rex_list,
  new_rex, rex_compile,
}
use sqnim.Rex.Node.{
  RexState, RexError, unexpected_character, Parsed, parsed, failed, spent, Parser, ◌>>=◌, give,
  rex_error, no_fuel, skip, new_node, change_node, set_left, set_right, set_next, type_of, next_of,
  current, expect, take_char, escape_char, char_class, balanced_node, boundary_node, escaped_node,
  char_node,
}
use sqnim.Rex.{RexType, op_expr, RexNode, CharTypes}

-- the nodes are inside what is allocated
abbrev pub HasRoom : RexState → Type 0
HasRoom s = (0 < s.nallocated) × (length s.nodes ≤ s.nallocated)

-- the last state of a step, whatever its result is
abbrev pub last_state : {A : Type 0} → Parsed A → RexState
last_state (parsed a s) = s
last_state (failed e s) = s
last_state (spent s) = s

unfoldable KeepsRoom : {A : Type 0} → Parser A → Type 0
KeepsRoom m = (s : RexState) → HasRoom s → HasRoom (last_state (m s))

>>=-KeepsRoom :
    {A B : Type 0} (m : Parser A) (f : A → Parser B)
    → KeepsRoom m
    → ((a : A) → KeepsRoom (f a))
    → KeepsRoom (m >>= f)
unfolding KeepsRoom ◌>>=◌
>>=-KeepsRoom m f h k s room = bound (m s) (h s room)
  where
    bound :
        (r : Parsed _)
        → HasRoom (last_state r)
        → HasRoom (
            last_state
              (elim r [ parsed a t ↦ f a t | failed e t ↦ failed e t | spent t ↦ spent t ]))
    bound (parsed a t) w = k a t w
    bound (failed e t) w = w
    bound (spent t) w = w

if-KeepsRoom :
    {A : Type 0} (b : Bool) (m n : Parser A)
    → KeepsRoom m
    → KeepsRoom n
    → KeepsRoom (if b then m else n)
if-KeepsRoom true m n h k = h
if-KeepsRoom false m n h k = k

give-KeepsRoom : {A : Type 0} (a : A) → KeepsRoom (give a)
unfolding KeepsRoom give
give-KeepsRoom a s room = room

rex_error-KeepsRoom : (A : Type 0) (e : RexError) → KeepsRoom {A = A} (rex_error e)
unfolding KeepsRoom rex_error
rex_error-KeepsRoom A e s room = room

no_fuel-KeepsRoom : (A : Type 0) → KeepsRoom {A = A} no_fuel
unfolding KeepsRoom no_fuel
no_fuel-KeepsRoom A s room = room

skip-KeepsRoom : KeepsRoom skip
unfolding KeepsRoom skip
skip-KeepsRoom s room = room

new_node-KeepsRoom : (type : RexType) → KeepsRoom (new_node type)
unfolding KeepsRoom new_node
new_node-KeepsRoom type s (positive, room) =
    rw (length-append s.nodes _) (elim (Bool-cases (ltb s.nallocated (length s.nodes + 1))) [
      | inl full ↦ rw full (omega (arith, positive), omega (arith, positive, room))
      | inr free ↦ rw free (positive, ground (arith, free))
    ])

change_node-KeepsRoom : (i : ℕ) (change : RexNode → RexNode) → KeepsRoom (change_node i change)
unfolding KeepsRoom change_node
change_node-KeepsRoom i change s (positive, room) = changed (get_elem? s.nodes i)
  where
    changed :
        (o : Option RexNode)
        → HasRoom (
            last_state (elim o [
              | none ↦ parsed tt s
              | some n ↦ parsed tt (record s { nodes = set s.nodes i (change n) })
            ]))
    changed none = (positive, room)
    changed (some n) = (positive, omega (arith, room, length-set s.nodes i (change n)))

set_left-KeepsRoom : (i : ℕ) (link : Option ℕ) → KeepsRoom (set_left i link)
unfolding KeepsRoom set_left
set_left-KeepsRoom i link = change_node-KeepsRoom i λ n. record n { left = link }

set_right-KeepsRoom : (i : ℕ) (link : Option ℕ) → KeepsRoom (set_right i link)
unfolding KeepsRoom set_right
set_right-KeepsRoom i link = change_node-KeepsRoom i λ n. record n { right = link }

set_next-KeepsRoom : (i : ℕ) (link : Option ℕ) → KeepsRoom (set_next i link)
unfolding KeepsRoom set_next
set_next-KeepsRoom i link = change_node-KeepsRoom i λ n. record n { next = link }

type_of-KeepsRoom : (i : ℕ) → KeepsRoom (type_of i)
unfolding KeepsRoom type_of
type_of-KeepsRoom i s room = ground (arith, room)

next_of-KeepsRoom : (i : ℕ) → KeepsRoom (next_of i)
unfolding KeepsRoom next_of
next_of-KeepsRoom i s room = ground (arith, room)

ruleset roomy = (
  >>=-KeepsRoom, if-KeepsRoom, give-KeepsRoom, rex_error-KeepsRoom, no_fuel-KeepsRoom,
  skip-KeepsRoom, new_node-KeepsRoom, set_left-KeepsRoom, set_right-KeepsRoom, set_next-KeepsRoom,
  type_of-KeepsRoom, next_of-KeepsRoom,
)

module _ (types : CharTypes) (pattern : ℕ → ℕ) where
  current-KeepsRoom : KeepsRoom (current types pattern)
  unfolding KeepsRoom current
  current-KeepsRoom s room = room

  expect-KeepsRoom : (n : ℕ) → KeepsRoom (expect types pattern n)
  unfolding expect
  expect-KeepsRoom n = search (roomy, current-KeepsRoom) depth 30

  take_char-KeepsRoom : KeepsRoom (take_char types pattern)
  unfolding take_char
  take_char-KeepsRoom = search (roomy, current-KeepsRoom) depth 30

  escape_char-KeepsRoom : KeepsRoom (escape_char types pattern)
  unfolding escape_char
  escape_char-KeepsRoom = search (roomy, current-KeepsRoom, take_char-KeepsRoom) depth 30

  char_class-KeepsRoom : (c : ℕ) → KeepsRoom (char_class types pattern c)
  unfolding char_class
  char_class-KeepsRoom c = search roomy depth 30

  balanced_node-KeepsRoom : KeepsRoom (balanced_node types pattern)
  unfolding balanced_node
  balanced_node-KeepsRoom = search (roomy, current-KeepsRoom) depth 30

  boundary_node-KeepsRoom : KeepsRoom (boundary_node types pattern)
  unfolding boundary_node
  boundary_node-KeepsRoom = search (roomy, take_char-KeepsRoom) depth 30

  escaped_node-KeepsRoom : (inside : Bool) (c : ℕ) → KeepsRoom (escaped_node types pattern inside c)
  unfolding escaped_node
  escaped_node-KeepsRoom inside c =
      search (roomy, char_class-KeepsRoom, balanced_node-KeepsRoom, boundary_node-KeepsRoom) depth
        30

  char_node-KeepsRoom : (inside : Bool) → KeepsRoom (char_node types pattern inside)
  unfolding char_node
  char_node-KeepsRoom inside =
      search (roomy, current-KeepsRoom, take_char-KeepsRoom, escaped_node-KeepsRoom) depth 30

  link_first-KeepsRoom :
      (chain : ℕ) (first : Option ℕ) → KeepsRoom (link_first types pattern chain first)
  unfolding link_first
  link_first-KeepsRoom chain none = give-KeepsRoom tt
  link_first-KeepsRoom chain (some c) = set_next-KeepsRoom chain (some c)

  range_node-KeepsRoom : (chain : ℕ) (first : ℕ) → KeepsRoom (range_node types pattern chain first)
  unfolding range_node
  range_node-KeepsRoom chain first =
      search (roomy, current-KeepsRoom, take_char-KeepsRoom, escape_char-KeepsRoom) depth 30

  class_loop-KeepsRoom :
      (f chain : ℕ) (first : Option ℕ) → KeepsRoom (class_loop types pattern f chain first)
  unfolding class_loop
  class_loop-KeepsRoom zero chain first = no_fuel-KeepsRoom (Unit {0})
  class_loop-KeepsRoom (suc f) chain none =
      search
        (
          roomy,
          current-KeepsRoom,
          link_first-KeepsRoom,
          char_node-KeepsRoom,
          class_loop-KeepsRoom f,
        )
        depth 30
  class_loop-KeepsRoom (suc f) chain (some n) =
      search
        (
          roomy,
          current-KeepsRoom,
          link_first-KeepsRoom,
          range_node-KeepsRoom,
          char_node-KeepsRoom,
          class_loop-KeepsRoom f,
        )
        depth 30

  rex_class-KeepsRoom : (f : ℕ) → KeepsRoom (rex_class types pattern f)
  unfolding rex_class
  rex_class-KeepsRoom f = search (roomy, current-KeepsRoom, class_loop-KeepsRoom) depth 30

  digits_loop-KeepsRoom :
      (f ret positions : ℕ) → KeepsRoom (digits_loop types pattern f ret positions)
  unfolding digits_loop
  digits_loop-KeepsRoom zero ret positions = no_fuel-KeepsRoom ℕ
  digits_loop-KeepsRoom (suc f) ret positions =
      search (roomy, current-KeepsRoom, take_char-KeepsRoom, digits_loop-KeepsRoom f) depth 30

  parse_number-KeepsRoom : (f : ℕ) → KeepsRoom (parse_number types pattern f)
  unfolding parse_number
  parse_number-KeepsRoom f = search (roomy, take_char-KeepsRoom, digits_loop-KeepsRoom) depth 30

  parse_bounds-KeepsRoom : (f : ℕ) → KeepsRoom (parse_bounds types pattern f)
  unfolding parse_bounds
  parse_bounds-KeepsRoom f =
      search (roomy, current-KeepsRoom, expect-KeepsRoom, parse_number-KeepsRoom) depth 30

  parse_greedy-KeepsRoom : (f : ℕ) → KeepsRoom (parse_greedy types pattern f)
  unfolding parse_greedy
  parse_greedy-KeepsRoom f = search (roomy, current-KeepsRoom, parse_bounds-KeepsRoom) depth 30

  greedy_node-KeepsRoom :
      (ret : ℕ) (bounds : Option (ℕ × ℕ)) → KeepsRoom (greedy_node types pattern ret bounds)
  unfolding greedy_node
  greedy_node-KeepsRoom ret none = give-KeepsRoom ret
  greedy_node-KeepsRoom ret (some (p0, p1)) = search roomy depth 30

  rex_group-KeepsRoom :
      (list : Parser ℕ) → KeepsRoom list → KeepsRoom (rex_group types pattern list)
  unfolding rex_group
  rex_group-KeepsRoom list h = search (roomy, current-KeepsRoom, expect-KeepsRoom) depth 30

  rex_atom-KeepsRoom :
      (f : ℕ) (list : Parser ℕ) → KeepsRoom list → KeepsRoom (rex_atom types pattern f list)
  unfolding rex_atom
  rex_atom-KeepsRoom f list h =
      search
        (
          roomy, current-KeepsRoom, expect-KeepsRoom, rex_group-KeepsRoom, rex_class-KeepsRoom,
          char_node-KeepsRoom,
        )
        depth 30

  element_body-KeepsRoom :
      (f : ℕ) (list element : Parser ℕ)
      → KeepsRoom list
      → KeepsRoom element
      → KeepsRoom (element_body types pattern f list element)
  unfolding element_body
  element_body-KeepsRoom f list element h k =
      search
        (
          roomy, current-KeepsRoom, rex_atom-KeepsRoom, parse_greedy-KeepsRoom,
          greedy_node-KeepsRoom,
        )
        depth 30

  list_body-KeepsRoom :
      (element list : Parser ℕ)
      → KeepsRoom element
      → KeepsRoom list
      → KeepsRoom (list_body types pattern element list)
  unfolding list_body
  list_body-KeepsRoom element list h k = search (roomy, current-KeepsRoom) depth 30

  mutual
    unfolding rex_element rex_list

    rex_element-KeepsRoom : (f : ℕ) → KeepsRoom (rex_element types pattern f)
    rex_element-KeepsRoom zero = no_fuel-KeepsRoom ℕ
    rex_element-KeepsRoom (suc f) =
        element_body-KeepsRoom f (rex_list types pattern f) (rex_element types pattern f)
          (rex_list-KeepsRoom f) (rex_element-KeepsRoom f)

    rex_list-KeepsRoom : (f : ℕ) → KeepsRoom (rex_list types pattern f)
    rex_list-KeepsRoom zero = no_fuel-KeepsRoom ℕ
    rex_list-KeepsRoom (suc f) =
        list_body-KeepsRoom (rex_element types pattern f) (rex_list types pattern f)
          (rex_element-KeepsRoom f) (rex_list-KeepsRoom f)

-- When a pattern that is not empty is compiled, with success, with an error or as far as the fuel lasts,
-- the nodes stay within the memory that is allocated for them, which has grown with them.
pub rex_compile-HasRoom :
    (types : CharTypes) (pattern : ℕ → ℕ) (f size : ℕ)
    → 0 < size
    → HasRoom (last_state (rex_compile types pattern f size))
unfolding KeepsRoom rex_compile new_rex
rex_compile-HasRoom types pattern f size positive =
    let all : KeepsRoom (
        new_node op_expr >>= λ first. rex_list types pattern f >>= λ res.
        set_left first (some res) >>= λ u. current types pattern >>= λ c.
        if c == 0 then give first else rex_error unexpected_character) =
      search (roomy, current-KeepsRoom types pattern, rex_list-KeepsRoom types pattern f) depth
        30 in
    all (new_rex types pattern size) (omega (arith, positive), omega arith)
