-- ===== src/Proto/Reading.antt =====
-- Reading by the callback of a closure's stream: `SafeRead`, `CheckTag` and `ReadObject`
-- (sqobject.cpp).
use sqnim.Prelude.Int.{ℤ, pos, negsuc, eqb_ℤ}
use sqnim.Prelude.{
  ℕ, zero, suc, true, not, Option, none, some, List, [], ◌∷◌, length, take, drop, ltb, ◌==◌,
  if◌then◌else◌,
}
use sqnim.Proto.Writing.{FloatBytes}
use sqnim.Stream.{of_bytes, decode_int}
use sqnim.Value.{
  Value, null_value, integer, float, boolean, string, type_code, ot_null, ot_integer, ot_float,
  ot_bool, ot_string,
}

-- what is read from bytes, and the bytes that are left; an exception is `none`
abbrev pub Reader : Type 0 → Type 0
Reader A = List ℕ → Option (A × List ℕ)

infixl 5 ◌>>=◌ ◌>>◌
unfoldable pub give : {A : Type 0} → A → Reader A
give a l = some (a, l)

unfoldable pub stop : {A : Type 0} → Reader A
stop l = none

unfoldable pub ◌>>=◌ : {A B : Type 0} → Reader A → (A → Reader B) → Reader B
(first >>= next) l = elim (first l) [ none ↦ none | some (a, rest) ↦ next a rest ]

abbrev pub ◌>>◌ : {B : Type 0} → Reader (Unit {0}) → Reader B → Reader B
first >> second = first >>= λ _. second

unfoldable pub safe_read : ℕ → Reader (List ℕ)
safe_read n l = if ltb (length l) n then none else some (take n l, drop n l)

unfoldable pub read_word : ℕ → Reader ℕ
unfolding safe_read of_bytes ◌>>=◌ give
read_word n = do l ← safe_read n; give (of_bytes l)

unfoldable pub read_integer : Reader ℤ
unfolding read_word decode_int ◌>>=◌ give
read_integer = do w ← read_word 8; give (decode_int true 8 w)

-- a count; one below zero, which the source does not test, ends the reading here
unfoldable pub read_count : Reader ℕ
unfolding read_integer give stop ◌>>=◌
read_count = do i ← read_integer; elim i [ pos n ↦ give n | negsuc n ↦ stop ]

unfoldable pub check_tag : ℕ → Reader (Unit {0})
unfolding read_word give stop ◌>>=◌
check_tag tag = do t ← read_word 4; if t == tag then give tt else stop

unfoldable pub read_all : {A : Type 0} → Reader A → ℕ → Reader (List A)
unfolding give ◌>>=◌
read_all read zero = give []
read_all read (suc n) = do x ← read; l ← read_all read n; give (x ∷ l)

module _ {F : Type 0} (floats : FloatBytes F) where
  unfoldable pub read_text : Reader (Value F)
  unfolding read_count safe_read give ◌>>=◌
  read_text = do n ← read_count; s ← safe_read n; give (string s)

  unfoldable pub read_value : ℕ → Reader (Value F)
  unfolding read_text read_integer safe_read give stop ◌>>=◌ type_code
  read_value type =
      if type == type_code ot_string
      then read_text
      else if type == type_code ot_integer
      then (do i ← read_integer; give (integer i))
      else if type == type_code ot_bool
      then (do i ← read_integer; give (boolean (not (eqb_ℤ i (pos 0)))))
      else if type == type_code ot_float
      then (do l ← safe_read floats.float_size; give (float (floats.float_of l)))
      else if type == type_code ot_null
      then give null_value
      else stop

  unfoldable pub read_object : Reader (Value F)
  unfolding read_word read_value ◌>>=◌
  read_object = do type ← read_word 4; read_value type
