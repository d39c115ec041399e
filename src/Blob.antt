-- ===== src/Blob.antt =====
-- `SQBlob` (sqstdblobimpl.h): a byte buffer with a position. `buffer` is the allocated memory, and
-- sizes stay below the machine's memory, so no sum wraps. Positions are never negative.
pub mod Grow
pub mod Write
pub mod Seek
use sqnim.Prelude.Int.{ℤ, pos, negsuc, ◌+ℤ◌, ltb_ℤ, pos_part}
use sqnim.Prelude.{
  ℕ, ◌+◌, ◌-◌, ◌*◌, Bool, true, false, not, ◌||◌, Option, none, some, List, [], ◌∷◌, ◌++◌, ltb, leb,
  ◌==◌, if◌then◌else◌, length, take, drop, replicate, min,
}

pub record Blob : Type 0 where
  pub size : ℕ
  pub allocated : ℕ
  pub ptr : ℕ
  pub buffer : List ℕ
  pub owns : Bool

unfoldable pub new_blob : ℕ → Blob
new_blob n = record { size = n; allocated = n; ptr = 0; buffer = replicate n 0; owns = true }

-- the new memory is zeroed and takes over as many bytes as fit
unfoldable pub resize : ℕ → Blob → Blob × Bool
resize n b = if not b.owns then (b, false) else if n == b.allocated then (b, true) else (
  record b {
    buffer = take (min b.size n) b.buffer ++ replicate (n - min b.size n) 0;
    allocated = n;
    size = if ltb n b.size then n else b.size;
    ptr = if ltb n b.ptr then n else b.ptr;
  },
  true,
)

unfoldable pub grow_buf_of : ℕ → Blob → Blob × Bool
unfolding resize
grow_buf_of n b =
    let (b', ret) : Blob × Bool =
      if ltb b.allocated (b.size + n)
      then (if ltb (b.size * 2) (b.size + n) then resize (b.size + n) b else resize (b.size * 2) b)
      else (b, true) in
    (record b' { size = b'.size + n }, ret)

unfoldable pub can_advance : ℕ → Blob → Bool
can_advance n b = not (ltb b.size (b.ptr + n))

-- `memcpy(&_buf[at], bytes, …)`
abbrev pub overwrite : ℕ → List ℕ → List ℕ → List ℕ
overwrite at bytes l = take at l ++ (bytes ++ drop (at + length bytes) l)

-- the start of `Write`: the blob with room for so many bytes at the position
unfoldable pub room_for : ℕ → Blob → Blob
unfolding grow_buf_of can_advance
room_for n b = if can_advance n b then b else (grow_buf_of (b.ptr + n - b.size) b).0

unfoldable pub write : List ℕ → Blob → Blob × ℕ
unfolding room_for
write bytes b =
    let n = length bytes in
    let room = room_for n b in
    (record room { buffer = overwrite room.ptr bytes room.buffer; ptr = room.ptr + n }, n)

-- the bytes read; their number is what the code returns
unfoldable pub read : ℕ → Blob → Blob × List ℕ
unfolding can_advance
read n b =
    let got : ℕ = if can_advance n b then n else if ltb b.ptr b.size then b.size - b.ptr else 0 in
    (record b { ptr = b.ptr + got }, take got (drop b.ptr b.buffer))

pub data Origin : Type 0 where
  seek_set seek_cur seek_end : Origin

abbrev move_to : ℤ → Blob → Blob × ℤ
move_to target b =
    if ltb_ℤ (pos b.size) target || ltb_ℤ target (pos 0)
    then (b, negsuc 0)
    else (record b { ptr = pos_part target }, pos 0)

-- the result is 0, or -1 for a target outside the blob
unfoldable pub seek : ℤ → Origin → Blob → Blob × ℤ
unfolding ◌+ℤ◌
seek offset seek_set b = move_to offset b
seek offset seek_cur b = move_to (pos b.ptr +ℤ offset) b
seek offset seek_end b = move_to (pos b.size +ℤ offset) b

unfoldable pub eos : Blob → Bool
eos b = b.ptr == b.size
