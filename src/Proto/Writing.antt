-- ===== src/Proto/Writing.antt =====
-- Writing by the callback of a closure's stream: `SafeWrite`, `WriteTag` and `WriteObject`
-- (sqobject.cpp). The callback takes as many bytes as it has room for.
use sqnim.Prelude.Int.{ℤ, pos}
use sqnim.Prelude.{ℕ, ◌-◌, Option, none, some, List, [], ◌∷◌, ◌++◌, length, ltb, if◌then◌else◌}
use sqnim.Stream.{to_bytes, encode_int}
use sqnim.Value.{Value, null_value, integer, float, boolean, string, object, sq_type, type_code}

-- what is written with so much room, and the room that is left; an exception is `none`
abbrev pub Writer : Type 0
Writer = ℕ → Option (List ℕ × ℕ)

infixl 5 ◌>>◌
unfoldable pub done : Writer
done room = some ([], room)

unfoldable pub refuse : Writer
refuse room = none

unfoldable pub ◌>>◌ : Writer → Writer → Writer
(first >> second) room = elim (first room) [
  | none ↦ none
  | some (a, left) ↦ elim (second left) [ none ↦ none | some (b, rest) ↦ some (a ++ b, rest) ]
]

unfoldable pub safe_write : List ℕ → Writer
safe_write bytes room = if ltb room (length bytes) then none else some (bytes, room - length bytes)

-- a number of `n` bytes without a sign, an SQInteger, and a count
unfoldable pub write_word : ℕ → ℕ → Writer
unfolding safe_write to_bytes
write_word n w = safe_write (to_bytes n w)

unfoldable pub write_integer : ℤ → Writer
unfolding safe_write to_bytes
write_integer i = safe_write (encode_int 8 i)

unfoldable pub write_tag : ℕ → Writer
unfolding write_word
write_tag tag = write_word 4 tag

unfoldable pub write_all : {A : Type 0} → (A → Writer) → List A → Writer
unfolding done ◌>>◌
write_all write [] = done
write_all write (x ∷ l) = do write x; write_all write l

-- an SQFloat in memory
pub record FloatBytes (F : Type 0) : Type 0 where
  pub float_size : ℕ
  pub float_to : F → List ℕ
  pub float_of : List ℕ → F

module _ {F : Type 0} (floats : FloatBytes F) where
  -- the bytes after the type
  unfoldable pub write_value : Value F → Writer
  unfolding write_integer safe_write done refuse ◌>>◌
  write_value (string s) = do write_integer (pos (length s)); safe_write s
  write_value (boolean b) = write_integer (pos (if b then 1 else 0))
  write_value (integer i) = write_integer i
  write_value (float f) = safe_write (floats.float_to f)
  write_value null_value = done
  write_value (object k a) = refuse

  unfoldable pub write_object : Value F → Writer
  unfolding write_word write_value ◌>>◌ sq_type type_code
  write_object v = do write_word 4 (type_code (sq_type v)); write_value v
