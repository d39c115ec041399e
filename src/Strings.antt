-- ===== src/Strings.antt =====
-- `startswith`, `endswith`, `split`, `lstrip`, `rstrip` and `strip` of the string library
-- (sqstdstring.cpp) on the bytes of a string. A byte 0 ends the C string that some of them read.
pub mod Affix
pub mod Split
pub mod Escape
pub mod Quoted
use sqnim.Prelude.{
  ℕ, zero, suc, ◌+◌, ◌-◌, Bool, true, false, not, ◌&&◌, ◌||◌, List, [], ◌∷◌, ◌++◌, leb, ltb, ◌==◌,
  if◌then◌else◌, length, take, drop,
}
use sqnim.Value.Compare.{eq_bytes}

-- `memcmp(…) == 0` on as many bytes as the second has
unfoldable pub startswith : List ℕ → List ℕ → Bool
unfolding eq_bytes
startswith str cmp =
    if leb (length cmp) (length str) then eq_bytes (take (length cmp) str) cmp else false

unfoldable pub endswith : List ℕ → List ℕ → Bool
unfolding eq_bytes
endswith str cmp =
    if leb (length cmp) (length str)
    then eq_bytes (drop (length str - length cmp) str) cmp
    else false

-- the pieces, or the error for an empty set of separators
pub data Pieces : Type 0 where
  pieces : List (List ℕ) → Pieces
  empty_separators : Pieces

abbrev pub is_separator : ℕ → List ℕ → Bool
is_separator c [] = false
is_separator c (d ∷ seps) = c == d || is_separator c seps

abbrev pub is_empty : List ℕ → Bool
is_empty [] = true
is_empty (c ∷ s) = false

-- the loop, with the text between `start` and `end`
unfoldable pub split_loop : List ℕ → Bool → List ℕ → List ℕ → List (List ℕ)
split_loop seps skip text [] = if is_empty text then [] else text ∷ []
split_loop seps skip text (c ∷ s) =
    let after = split_loop seps skip [] s in
    let within = split_loop seps skip (text ++ c ∷ []) s in
    if c == 0
    then (if is_empty text then [] else text ∷ [])
    else if is_separator c seps
    then (if not skip || not (is_empty text) then text ∷ after else after)
    else within

unfoldable pub split : List ℕ → List ℕ → Bool → Pieces
unfolding split_loop
split str seps skip =
    if length seps == 0 then empty_separators else pieces (split_loop seps skip [] str)

-- `scisspace`
abbrev pub is_space : ℕ → Bool
is_space c = c == 32 || leb 9 c && leb c 13

-- what `scstrlen` sees
unfoldable pub c_string : List ℕ → List ℕ
c_string [] = []
c_string (c ∷ s) = let rest = c_string s in if c == 0 then [] else c ∷ rest

-- the position of `*start` in `__strip_l`, and of `*end` in `__strip_r`
unfoldable pub strip_l : List ℕ → ℕ
strip_l [] = 0
strip_l (c ∷ s) = let n = strip_l s in if is_space c then suc n else 0

unfoldable pub strip_r : List ℕ → ℕ
strip_r [] = 0
strip_r (c ∷ s) = let n = strip_r s in if n == 0 then (if is_space c then 0 else 1) else suc n

unfoldable pub lstrip : List ℕ → List ℕ
unfolding strip_l c_string
lstrip s = c_string (drop (strip_l s) s)

unfoldable pub rstrip : List ℕ → List ℕ
unfolding strip_r
rstrip s = take (strip_r s) s

-- a negative length is taken for that of the C string
unfoldable pub strip : List ℕ → List ℕ
unfolding strip_l strip_r c_string
strip s =
    if leb (strip_l s) (strip_r s)
    then take (strip_r s - strip_l s) (drop (strip_l s) s)
    else c_string (drop (strip_l s) s)
