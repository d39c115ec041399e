-- ===== src/Stream/Numbers.antt =====
-- Numbers in a stream, from the script's to the bytes and back.
use native.Mathlib.Nat.{mod-lt}
use sqnim.Blob.Grow.{IsValid}
use sqnim.Blob.Seek.{read-write}
use sqnim.Blob.{Blob, read, write}
use sqnim.Prelude.Int.{ℤ, pos, negsuc}
use sqnim.Prelude.{
  ℕ, zero, suc, ◌*◌, ◌/◌, ◌%◌, ◌<◌, ◌≡◌, ◌⊎◌, inl, inr, refl, ap, subst, Bool, true, false, some,
  length, arith, ◌==◌,
}
use sqnim.Stream.{
  integer, shape, patterns, to_bytes, of_bytes, encode_int, decode_int, Scalars, stream_writen,
  stream_readn, safe_readn,
}
use sqnim.Word.{to_word}

-- the integers of a type of `n` bytes
abbrev pub Fits : Bool → ℕ → ℤ → Type 0
Fits true n (pos k) = 2 * k < patterns n
Fits true n (negsuc k) = 2 * k < patterns n
Fits false n (pos k) = k < patterns n
Fits false n (negsuc k) = ⊥

pub patterns_positive : (n : ℕ) → 0 < patterns n
patterns_positive zero = omega arith
patterns_positive (suc n) = omega (arith, patterns_positive n)

pub length-to_bytes : (n w : ℕ) → length (to_bytes n w) ≡ n
unfolding to_bytes
length-to_bytes zero w = refl
length-to_bytes (suc n) w = ap suc (length-to_bytes n (w / 256))

pub of_bytes-to_bytes : (n w : ℕ) → w < patterns n → of_bytes (to_bytes n w) ≡ w
unfolding to_bytes of_bytes
of_bytes-to_bytes zero w h = omega (arith, h)
of_bytes-to_bytes (suc n) w h = omega (arith, of_bytes-to_bytes n (w / 256) (omega (arith, h)), h)

-- the types of integers
shape_cases :
    (format : ℕ) (s : Bool) (n : ℕ)
    → shape format ≡ some (integer s n)
    → (((s ≡ true) × (n ≡ 8))
        ⊎ (((s ≡ true) × (n ≡ 4))
            ⊎ (((s ≡ true) × (n ≡ 2))
                ⊎ (((s ≡ false) × (n ≡ 2)) ⊎ (((s ≡ true) × (n ≡ 1)) ⊎ ((s ≡ false) × (n ≡ 1)))))))
unfolding shape
shape_cases format s n e = ground arith

pub long_word : (i : ℤ) → Fits true 8 i → decode_int true 8 (to_word i % patterns 8) ≡ i
unfolding decode_int to_word
long_word (pos k) h = ground arith
long_word (negsuc k) h = ground arith

pub int_word : (i : ℤ) → Fits true 4 i → decode_int true 4 (to_word i % patterns 4) ≡ i
unfolding decode_int to_word
int_word (pos k) h = ground arith
int_word (negsuc k) h = ground arith

short_word : (i : ℤ) → Fits true 2 i → decode_int true 2 (to_word i % patterns 2) ≡ i
unfolding decode_int to_word
short_word (pos k) h = ground arith
short_word (negsuc k) h = ground arith

word_word : (i : ℤ) → Fits false 2 i → decode_int false 2 (to_word i % patterns 2) ≡ i
unfolding decode_int to_word
word_word (pos k) h = ground arith
word_word (negsuc k) h = absurd h

char_word : (i : ℤ) → Fits true 1 i → decode_int true 1 (to_word i % patterns 1) ≡ i
unfolding decode_int to_word
char_word (pos k) h = ground arith
char_word (negsuc k) h = ground arith

byte_word : (i : ℤ) → Fits false 1 i → decode_int false 1 (to_word i % patterns 1) ≡ i
unfolding decode_int to_word
byte_word (pos k) h = ground arith
byte_word (negsuc k) h = absurd h

decode_word :
    (format : ℕ) (s : Bool) (n : ℕ) (i : ℤ)
    → shape format ≡ some (integer s n)
    → Fits s n i
    → decode_int s n (to_word i % patterns n) ≡ i
unfolding decode_int to_word
decode_word format s n i e h = elim (shape_cases format s n e) [
  | inl (sE, nE) ↦ rw (sE, nE) (long_word i (rw (sE, nE) at h))
  | inr rest0 ↦ elim rest0 [
    | inl (sE, nE) ↦ rw (sE, nE) (int_word i (rw (sE, nE) at h))
    | inr rest1 ↦ elim rest1 [
      | inl (sE, nE) ↦ rw (sE, nE) (short_word i (rw (sE, nE) at h))
      | inr rest2 ↦ elim rest2 [
        | inl (sE, nE) ↦ rw (sE, nE) (word_word i (rw (sE, nE) at h))
        | inr rest3 ↦ elim rest3 [
          | inl (sE, nE) ↦ rw (sE, nE) (char_word i (rw (sE, nE) at h))
          | inr rest4 ↦ let (sE, nE) = rest4 in rw (sE, nE) (byte_word i (rw (sE, nE) at h))
        ]
      ]
    ]
  ]
]

decode_int-encode_int :
    (format : ℕ) (s : Bool) (n : ℕ) (i : ℤ)
    → shape format ≡ some (integer s n)
    → Fits s n i
    → decode_int s n (of_bytes (encode_int n i)) ≡ i
decode_int-encode_int format s n i e h =
    rw (of_bytes-to_bytes n (to_word i % patterns n) (mod-lt _ (patterns_positive n)))
      (decode_word format s n i e h)

-- An integer that fits the type of a format, written to a valid blob, is read back from there.
pub stream_readn-stream_writen :
    {V : Type 0} (c : Scalars V) (format : ℕ) (s : Bool) (n : ℕ) (v : V) (b : Blob)
    → shape format ≡ some (integer s n)
    → Fits s n (c.as_int v)
    → IsValid b
    → (b' : Blob) × (stream_writen c format v b ≡ some b')
      × ((stream_readn c format (record b' { ptr = b.ptr })).1 ≡ some (c.of_int (c.as_int v)))
unfolding stream_writen stream_readn safe_readn
stream_readn-stream_writen c format s n v b e h w =
    let bytes = encode_int n (c.as_int v) in
    let wide = length-to_bytes n (to_word (c.as_int v) % patterns n) in
    let back : (read n (record (write bytes b).0 { ptr = b.ptr })).1 ≡ bytes =
      subst (λ k. (read k (record (write bytes b).0 { ptr = b.ptr })).1 ≡ bytes) wide
        (read-write bytes b w) in
    let all : (length bytes == n) ≡ true = ground (arith, wide) in
    (
      (write bytes b).0,
      rw (stream_writen, e) refl,
      rw (stream_readn, e, safe_readn, back, all, decode_int-encode_int format s n (c.as_int v) e h)
          refl,
    )
