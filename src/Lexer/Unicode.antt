-- ===== src/Lexer/Unicode.antt =====
-- Decoding what `AddUTF8` appends.
use sqnim.Lexer.{add_utf8}
use sqnim.Prelude.{
  ℕ, ◌+◌, ◌-◌, ◌*◌, ◌<◌, ◌≡◌, List, [], ◌∷◌, ◌++◌, Option, none, some, arith, ltb, if◌then◌else◌,
}

-- the character that a byte sequence starts with, and the bytes after it, told by the first byte
abbrev pub decode : List ℕ → Option (ℕ × List ℕ)
decode [] = none
decode (a ∷ []) = if ltb a 0x80 then some (a, []) else none
decode (a ∷ b ∷ []) =
    if ltb a 0x80
    then some (a, b ∷ [])
    else if ltb a 0xE0
    then some ((a - 0xC0) * 64 + (b - 0x80), [])
    else none
decode (a ∷ b ∷ c ∷ []) =
    if ltb a 0x80
    then some (a, b ∷ c ∷ [])
    else if ltb a 0xE0
    then some ((a - 0xC0) * 64 + (b - 0x80), c ∷ [])
    else if ltb a 0xF0
    then some ((a - 0xE0) * 4096 + (b - 0x80) * 64 + (c - 0x80), [])
    else none
decode (a ∷ b ∷ c ∷ d ∷ s) =
    if ltb a 0x80
    then some (a, b ∷ c ∷ d ∷ s)
    else if ltb a 0xE0
    then some ((a - 0xC0) * 64 + (b - 0x80), c ∷ d ∷ s)
    else if ltb a 0xF0
    then some ((a - 0xE0) * 4096 + (b - 0x80) * 64 + (c - 0x80), d ∷ s)
    else some ((a - 0xF0) * 262144 + (b - 0x80) * 4096 + (c - 0x80) * 64 + (d - 0x80), s)

-- Decoding the bytes appended for a character up to 0x10FFFF, whatever follows them, gives the
-- character and what follows.
pub decode-add_utf8 :
    (ch : ℕ) (s : List ℕ) → ch < 0x11_0000 → decode (add_utf8 ch ++ s) ≡ some (ch, s)
unfolding add_utf8
decode-add_utf8 ch [] h = ground arith
decode-add_utf8 ch (a ∷ []) h = ground arith
decode-add_utf8 ch (a ∷ b ∷ []) h = ground arith
decode-add_utf8 ch (a ∷ b ∷ c ∷ s) h = ground arith
