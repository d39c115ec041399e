-- ===== src/Strings/Escape.antt =====
-- `_string_escape` (sqstdstring.cpp), where characters are bytes. `isprint` is the C library's, a
-- parameter; `%02x` prints a character of 128 or more as the negative number that it is.
use sqnim.Prelude.{
  ℕ, ◌+◌, ◌/◌, ◌%◌, Bool, ◌||◌, Option, none, some, List, [], ◌∷◌, ◌++◌, ltb, ◌==◌, if◌then◌else◌,
}

-- the letter after a backslash
unfoldable pub escape_letter : ℕ → Option ℕ
escape_letter c =
    if c == 7
    then some b'a'
    else if c == 8
    then some b'b'
    else if c == 9
    then some b't'
    else if c == 10
    then some b'n'
    else if c == 11
    then some b'v'
    else if c == 12
    then some b'f'
    else if c == 13
    then some b'r'
    else if c == 92
    then some 92
    else if c == 34
    then some 34
    else if c == 39
    then some 39
    else if c == 0
    then some b'0'
    else none

unfoldable pub hex_letter : ℕ → ℕ
hex_letter d = if ltb d 10 then 48 + d else 87 + d

-- `%02x`
unfoldable pub print_hex : ℕ → List ℕ
unfolding hex_letter
print_hex c =
    let two = hex_letter (c / 16) ∷ hex_letter (c % 16) ∷ [] in
    if ltb c 128 then two else b'f' ∷ b'f' ∷ b'f' ∷ b'f' ∷ b'f' ∷ b'f' ∷ two

unfoldable pub escape_byte : (ℕ → Bool) → ℕ → List ℕ
unfolding escape_letter print_hex
escape_byte is_print c =
    if is_print c || (c == 0)
    then elim (escape_letter c) [ some l ↦ 92 ∷ l ∷ [] | none ↦ c ∷ [] ]
    else 92 ∷ b'x' ∷ print_hex c

-- the text in the scratch pad, which the string keeps if nothing in it is escaped
unfoldable pub string_escape : (ℕ → Bool) → List ℕ → List ℕ
unfolding escape_byte
string_escape is_print [] = []
string_escape is_print (c ∷ s) = escape_byte is_print c ++ string_escape is_print s
