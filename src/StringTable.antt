-- ===== src/StringTable.antt =====
-- `SQStringTable` (sqstate.h, sqstate.cpp) and `_hashstr` (sqstring.h): one object for each text.
-- A chain of strings, which are linked by `_next`, is a list; the memory that the C library gives
-- for a new string is its address, an argument of `Add`.
pub mod Chains
pub mod Intern
pub mod Hash
use Prim.Native.Nat.{bit_xor}
use sqnim.Prelude.{
  ℕ, zero, suc, ◌+◌, ◌-◌, ◌*◌, ◌/◌, ◌%◌, Bool, true, false, Option, none, some, List, [], ◌∷◌,
  length, get_elem?, ltb, leb, ◌==◌, if◌then◌else◌,
}
use sqnim.Table.{update}
use sqnim.Value.Compare.{eq_bytes}
use sqnim.Word.{word_mod}

-- `SQString`
pub record SqString : Type 0 where
  pub address : ℕ
  pub val : List ℕ
  pub hash : ℕ

pub record StringTable : Type 0 where
  pub strings : ℕ → List SqString
  pub num_of_slots : ℕ
  pub slot_used : ℕ

-- `(unsigned short)` of a signed character
unfoldable pub to_short : ℕ → ℕ
to_short c = if ltb c 0x80 then c else c + 0xff00

-- one round for the character before `l1`
unfoldable pub hash_step : List ℕ → ℕ → ℕ → ℕ
unfolding to_short
hash_step s l1 h = elim (get_elem? s (l1 - 1)) [
  | none ↦ h
  | some c ↦ bit_xor h ((h * 32 % word_mod + h / 4 + to_short c) % word_mod)
]

-- `for (l1 = l; l1 >= step; l1 -= step)`
unfoldable pub hash_loop : ℕ → ℕ → List ℕ → ℕ → ℕ → ℕ
unfolding hash_step
hash_loop zero step s l1 h = h
hash_loop (suc f) step s l1 h =
    let rest = hash_loop f step s (l1 - step) (hash_step s l1 h) in if leb step l1 then rest else h

-- `_hashstr`
unfoldable pub hash_str : List ℕ → ℕ
unfolding hash_loop
hash_str s = hash_loop (length s) (length s / 32 + 1) s (length s) (length s)

-- `for (s = _strings[h]; s; s = s->_next)`
unfoldable pub find_string : List ℕ → List SqString → Option SqString
unfolding eq_bytes
find_string news [] = none
find_string news (s ∷ l) =
    let rest = find_string news l in if eq_bytes news s.val then some s else rest

-- the inner loop of `Resize`
unfoldable pub move_chain : ℕ → List SqString → (ℕ → List SqString) → ℕ → List SqString
move_chain size [] strings = strings
move_chain size (p ∷ next) strings =
    let h : ℕ = p.hash % size in move_chain size next (update h (p ∷ strings h) strings)

-- the outer one, with `c` chains left
unfoldable pub move_chains :
    ℕ → ℕ → ℕ → (ℕ → List SqString) → (ℕ → List SqString) → ℕ → List SqString
unfolding move_chain
move_chains zero i size old strings = strings
move_chains (suc c) i size old strings =
    move_chains c (suc i) size old (move_chain size (old i) strings)

unfoldable pub resize_strings : ℕ → StringTable → StringTable
unfolding move_chains
resize_strings size t = record t {
  strings = move_chains t.num_of_slots 0 size t.strings (λ i. []);
  num_of_slots = size;
}

abbrev pub new_strings : StringTable
new_strings = record { strings = λ i. []; num_of_slots = 4; slot_used = 0 }

-- the slot of a text
abbrev pub slot_of : StringTable → List ℕ → ℕ
slot_of t news = hash_str news % t.num_of_slots

abbrev pub link_string : SqString → ℕ → StringTable → StringTable
link_string s h t = record t {
  strings = update h (s ∷ t.strings h) t.strings;
  slot_used = t.slot_used + 1;
}

unfoldable pub add_string : ℕ → List ℕ → StringTable → StringTable × SqString
unfolding find_string resize_strings
add_string address news t = elim (find_string news (t.strings (slot_of t news))) [
  | some s ↦ (t, s)
  | none ↦
      let s : SqString = record { address = address; val = news; hash = hash_str news } in
      let t' : StringTable = link_string s (slot_of t news) t in
      (if ltb t'.num_of_slots t'.slot_used then resize_strings (t'.num_of_slots * 2) t' else t', s)
]

-- `Remove` takes the string with the address out of the chain; `none` if it is not there
unfoldable pub unlink : ℕ → List SqString → Option (List SqString)
unlink address [] = none
unlink address (s ∷ l) = elim (s.address == address) [
  | true ↦ some l
  | false ↦ elim (unlink address l) [ none ↦ none | some l' ↦ some (s ∷ l') ]
]

unfoldable pub remove_string : SqString → StringTable → Option StringTable
unfolding unlink
remove_string bs t =
    let h : ℕ = bs.hash % t.num_of_slots in
    elim (unlink bs.address (t.strings h)) [
      | none ↦ none
      | some l ↦ some (record t { strings = update h l t.strings; slot_used = t.slot_used - 1 })
    ]
