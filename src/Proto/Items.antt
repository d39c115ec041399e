-- ===== src/Proto/Items.antt =====
-- The items of a closure's stream: numbers, tags, values and vectors.
use native.Mathlib.Nat.{mod-lt}
use sqnim.Prelude.Int.{ℤ, pos}
use sqnim.Prelude.{ℕ, ◌*◌, ◌%◌, ◌<◌, ◌≡◌, refl, ap, true, false, List, [], ◌∷◌, length, arith, ◌==◌}
use sqnim.Proto.Reading.{
  Reader, give, read_word, read_integer, read_count, check_tag, read_all, read_object, read_value,
  read_text,
}
use sqnim.Proto.Save.{write_count}
use sqnim.Proto.Stored.{Stored, Stored-seq, Stored-give, Stored-done, Stored-bytes}
use sqnim.Proto.Writing.{
  Writer, safe_write, write_word, write_integer, write_tag, write_all, write_value, write_object,
  FloatBytes,
}
use sqnim.Stream.Numbers.{Fits, length-to_bytes, of_bytes-to_bytes, long_word, patterns_positive}
use sqnim.Word.{to_word}
use sqnim.Stream.{to_bytes, encode_int, patterns}
use sqnim.Value.{Value, null_value, integer, float, boolean, string, object, type_code, sq_type}

-- a predicate of every item
abbrev pub Each : {A : Type 0} → (A → Type 0) → List A → Type 0
Each P [] = Unit {0}
Each P (x ∷ l) = P x × Each P l

-- The values that can be saved: not those on the heap, and texts of a length that is a size.
abbrev pub IsStorable : {F : Type 0} → Value F → Type 0
IsStorable (string s) = 2 * length s < patterns 8
IsStorable (integer i) = Fits true 8 i
IsStorable (boolean b) = Unit {0}
IsStorable (float f) = Unit {0}
IsStorable null_value = Unit {0}
IsStorable (object k a) = ⊥

storable_type : {F : Type 0} (v : Value F) → IsStorable v → type_code (sq_type v) < patterns 4
unfolding type_code sq_type
storable_type null_value h = omega arith
storable_type (integer i) h = omega arith
storable_type (float f) h = omega arith
storable_type (boolean b) h = omega arith
storable_type (string s) h = omega arith
storable_type (object k a) h = absurd h

pub Stored-word : (n w : ℕ) → w < patterns n → Stored (write_word n w) (read_word n) w
unfolding write_word read_word
Stored-word n w h =
    Stored-give _ (Stored-bytes (to_bytes n w) n (length-to_bytes n w))
      (ap give (of_bytes-to_bytes n w h))

pub Stored-integer : (i : ℤ) → Fits true 8 i → Stored (write_integer i) read_integer i
unfolding write_integer write_word read_integer
Stored-integer i h =
    Stored-give _ (Stored-word 8 (to_word i % patterns 8) (mod-lt _ (patterns_positive 8)))
      (ap give (long_word i h))

-- the argument of an instruction, which is read with its fields
pub Stored-arg1 :
    (i : ℤ)
    → Fits true 4 i
    → Stored (safe_write (encode_int 4 i)) (read_word 4) (to_word i % patterns 4)
unfolding write_word
Stored-arg1 i h = Stored-word 4 (to_word i % patterns 4) (mod-lt _ (patterns_positive 4))

pub Stored-count : (n : ℕ) → 2 * n < patterns 8 → Stored (write_count n) read_count n
unfolding write_count read_count
Stored-count n h = Stored-give _ (Stored-integer (pos n) h) refl

pub Stored-tag : (t : ℕ) → t < patterns 4 → Stored (write_tag t) (check_tag t) tt
unfolding write_tag check_tag
Stored-tag t h =
    let same : (t == t) ≡ true = ground arith in Stored-give _ (Stored-word 4 t h) (rw same refl)

-- the items of a vector, one after another
pub Stored-all :
    {A : Type 0} (write : A → Writer) (read : Reader A) (l : List A)
    → Each (λ x. Stored (write x) read x) l
    → Stored (write_all write l) (read_all read (length l)) l
unfolding write_all read_all
Stored-all write read [] h = Stored-done []
Stored-all write read (x ∷ l) (s, h) =
    Stored-seq _ s (Stored-give _ (Stored-all write read l h) refl)

module _ {F : Type 0} (floats : FloatBytes F)
    (sized : (f : F) → length (floats.float_to f) ≡ floats.float_size)
    (back : (f : F) → floats.float_of (floats.float_to f) ≡ f) where
  -- what `ReadObject` reads after the type of a value
  value-Stored :
      (v : Value F)
      → IsStorable v
      → Stored (write_value floats v) (read_value floats (type_code (sq_type v))) v
  unfolding write_value read_value read_text type_code sq_type write_count
  value-Stored (string s) h =
      Stored-seq _ (Stored-count (length s) h) (Stored-give _ (Stored-bytes s (length s) refl) refl)
  value-Stored (integer i) h = Stored-give _ (Stored-integer i h) refl
  value-Stored (boolean true) h = Stored-give _ (Stored-integer (pos 1) (omega arith)) refl
  value-Stored (boolean false) h = Stored-give _ (Stored-integer (pos 0) (omega arith)) refl
  value-Stored (float f) h =
      Stored-give _ (Stored-bytes (floats.float_to f) floats.float_size (sized f))
        (ap (λ x. give (float x)) (back f))
  value-Stored null_value h = Stored-done null_value
  value-Stored (object k a) h = absurd h

  pub object-Stored :
      (v : Value F) → IsStorable v → Stored (write_object floats v) (read_object floats) v
  unfolding write_object read_object
  object-Stored v h =
      Stored-seq _ (Stored-word 4 (type_code (sq_type v)) (storable_type v h)) (value-Stored v h)
