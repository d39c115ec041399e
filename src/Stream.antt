-- ===== src/Stream.antt =====
-- `readn`, `writen`, `readblob` and `writeblob` of streams (sqstdstream.cpp), over the blob as the
-- stream, and the byte swaps of sqstdblob.cpp. The representation of numbers in memory is that of a
-- machine with the low byte first. Floating point is a parameter.
pub mod Numbers
use sqnim.Blob.{Blob, read, write}
use sqnim.Prelude.Int.{ℤ, pos, negsuc}
use sqnim.Prelude.{
  ℕ, zero, suc, ◌+◌, ◌-◌, ◌*◌, ◌/◌, ◌%◌, Bool, true, false, Option, none, some, List, [], ◌∷◌,
  length, ltb, ◌==◌, if◌then◌else◌,
}
use sqnim.Word.{to_word}

-- the C types behind the letters of a format: an integer, with its sign and size, or a float
pub data Shape : Type 0 where
  integer : Bool → ℕ → Shape
  floating : ℕ → Shape

-- `none` is an invalid format
unfoldable pub shape : ℕ → Option Shape
shape format =
    if format == 0x6c
    then some (integer true 8)
    else if format == 0x69
    then some (integer true 4)
    else if format == 0x73
    then some (integer true 2)
    else if format == 0x77
    then some (integer false 2)
    else if format == 0x63
    then some (integer true 1)
    else if format == 0x62
    then some (integer false 1)
    else if format == 0x66
    then some (floating 4)
    else if format == 0x64
    then some (floating 8)
    else none

-- how many patterns so many bytes have
abbrev pub patterns : ℕ → ℕ
patterns zero = 1
patterns (suc n) = 256 * patterns n

unfoldable pub to_bytes : ℕ → ℕ → List ℕ
to_bytes zero w = []
to_bytes (suc n) w = w % 256 ∷ to_bytes n (w / 256)

unfoldable pub of_bytes : List ℕ → ℕ
of_bytes [] = 0
of_bytes (b ∷ l) = b + 256 * of_bytes l

-- the conversion of an integer to a type of `n` bytes, as it stands in memory, and back
abbrev pub encode_int : ℕ → ℤ → List ℕ
encode_int n i = to_bytes n (to_word i % patterns n)

unfoldable pub decode_int : Bool → ℕ → ℕ → ℤ
decode_int signed n w =
    if signed
    then (if ltb (2 * w) (patterns n) then pos w else negsuc (patterns n - 1 - w))
    else pos w

-- the script's numbers: `sq_getinteger`, `sq_pushinteger`, and floats of 4 and 8 bytes
pub record Scalars (V : Type 0) : Type 0 where
  pub as_int : V → ℤ
  pub of_int : ℤ → V
  pub float_bytes : ℕ → V → List ℕ
  pub of_float_bytes : ℕ → List ℕ → V

module _ {V : Type 0} (c : Scalars V) where
  -- `none` is the error for an invalid format
  unfoldable pub stream_writen : ℕ → V → Blob → Option Blob
  unfolding shape to_bytes write
  stream_writen format v b = elim (shape format) [
    | none ↦ none
    | some (integer signed n) ↦ some (write (encode_int n (c.as_int v)) b).0
    | some (floating n) ↦ some (write (c.float_bytes n v) b).0
  ]

  -- `SAFE_READN`: all bytes, or an error
  unfoldable pub safe_readn : ℕ → Blob → Option (List ℕ)
  unfolding read
  safe_readn n b = let got : List ℕ = (read n b).1 in if length got == n then some got else none

  -- the value read, or `none` for an error, and the blob in both cases
  unfoldable pub stream_readn : ℕ → Blob → Blob × Option V
  unfolding shape safe_readn decode_int of_bytes read
  stream_readn format b = elim (shape format) [
    | none ↦ (b, none)
    | some (integer signed n) ↦ (
      (read n b).0,
      elim (safe_readn n b) [
        | none ↦ none
        | some l ↦ some (c.of_int (decode_int signed n (of_bytes l)))
      ],
    )
    | some (floating n) ↦
        ((read n b).0, elim (safe_readn n b) [ none ↦ none | some l ↦ some (c.of_float_bytes n l) ])
  ]

-- the bytes of the new blob; `none` is the error when nothing is left
unfoldable pub stream_readblob : ℕ → Blob → Blob × Option (List ℕ)
unfolding read
stream_readblob size b =
    let got : List ℕ = (read (if ltb b.size size then b.size else size) b).1 in
    (
      (read (if ltb b.size size then b.size else size) b).0,
      if length got == 0 then none else some got,
    )

-- the number of bytes written; `none` is the error when it is not all of them
unfoldable pub stream_writeblob : List ℕ → Blob → Blob × Option ℕ
unfolding write
stream_writeblob bytes b =
    ((write bytes b).0, if (write bytes b).1 == length bytes then some (length bytes) else none)
