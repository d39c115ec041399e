-- ===== src/Blob/Seek.antt =====
-- Reads and moves of the position.
use sqnim.Blob.Grow.{IsValid}
use sqnim.Blob.Write.{write-Written}
use sqnim.Blob.{Blob, can_advance, write, read, seek, Origin, seek_set, seek_cur, seek_end, move_to}
use sqnim.Prelude.Int.{ℤ, pos, negsuc, ◌+ℤ◌, int_laws}
use sqnim.Prelude.{
  ℕ, ◌+◌, ◌-◌, ◌≤◌, ◌≡◌, ◌≢◌, refl, ◌∙◌, List, arith, length, take, drop, if◌then◌else◌, ltb, min,
  inl, inr, Bool-cases,
}

-- where an origin starts from
abbrev origin : Origin → Blob → ℕ
origin seek_set b = 0
origin seek_cur b = b.ptr
origin seek_end b = b.size

move_to_in :
    (target : ℤ) (b : Blob) (t : ℕ)
    → pos t ≡ target
    → t ≤ b.size
    → move_to target b ≡ (record b { ptr = t }, pos 0)
move_to_in target b t e h = rw (← e) (ground arith)

move_to_out :
    (target : ℤ) (b : Blob)
    → ((t : ℕ) → t ≤ b.size → pos t ≢ target)
    → move_to target b ≡ (b, negsuc 0)
move_to_out (pos t) b h = elim (Bool-cases (ltb b.size t)) [
  | inl e ↦ ground arith
  | inr e ↦ absurd (h t (ground arith) refl)
]
move_to_out (negsuc t) b h = ground arith

zero-+ℤ : (a : ℤ) → pos 0 +ℤ a ≡ a
zero-+ℤ a = omega int_laws

-- A seek that lands in the content, the end included, moves there and reports 0.
pub seek_inside :
    (offset : ℤ) (o : Origin) (b : Blob) (t : ℕ)
    → pos t ≡ pos (origin o b) +ℤ offset
    → t ≤ b.size
    → seek offset o b ≡ (record b { ptr = t }, pos 0)
unfolding seek
seek_inside offset seek_set b t = rw zero-+ℤ (λ e h. move_to_in _ b t e h)
seek_inside offset seek_cur b t = λ e h. move_to_in _ b t e h
seek_inside offset seek_end b t = λ e h. move_to_in _ b t e h

-- A seek that lands nowhere in the content reports -1 and leaves the blob as it is.
pub seek_outside :
    (offset : ℤ) (o : Origin) (b : Blob)
    → ((t : ℕ) → t ≤ b.size → pos t ≢ pos (origin o b) +ℤ offset)
    → seek offset o b ≡ (b, negsuc 0)
unfolding seek
seek_outside offset seek_set b = rw zero-+ℤ (λ h. move_to_out _ b h)
seek_outside offset seek_cur b = λ h. move_to_out _ b h
seek_outside offset seek_end b = λ h. move_to_out _ b h

got :
    (n : ℕ) (b : Blob)
    → IsValid b
    → (if can_advance n b then n else if ltb b.ptr b.size then b.size - b.ptr else 0)
      ≡ min n (b.size - b.ptr)
unfolding can_advance
got n b v = ground arith

-- A read of `n` bytes from a valid blob returns the bytes from the position on, as many as the
-- content has up to `n`, moves the position past them, and keeps the blob valid.
pub read_lem :
    (n : ℕ) (b : Blob)
    → IsValid b
    → IsValid (read n b).0
      × ((read n b).1 ≡ take (min n (b.size - b.ptr)) (drop b.ptr b.buffer))
      × ((read n b).0.ptr ≡ b.ptr + min n (b.size - b.ptr))
unfolding read
read_lem n b v = rw (got n b v) (
  record {
    position = omega (arith, v.position);
    room = v.room;
    memory = v.memory;
    owned = v.owned;
  },
  refl,
  refl,
)

-- What is written to a valid blob can be read back from where it was written.
pub read-write :
    (bytes : List ℕ) (b : Blob)
    → IsValid b
    → (read (length bytes) (record (write bytes b).0 { ptr = b.ptr })).1 ≡ bytes
read-write bytes b v =
    let (w, _) = write-Written bytes b v in
    let c = (write bytes b).0 in
    let at : Blob = record c { ptr = b.ptr } in
    let valid : IsValid at = record {
      position = omega (arith, w.size, v.position);
      room = w.valid.room;
      memory = w.valid.memory;
      owned = w.valid.owned;
    } in
    let all : min (length bytes) (c.size - b.ptr) ≡ length bytes = omega (arith, w.size) in
    (read_lem (length bytes) at valid).1 ∙ rw all w.stored
