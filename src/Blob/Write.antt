-- ===== src/Blob/Write.antt =====
-- What a write leaves in the blob, and what can be read back.
use sqnim.Blob.Grow.{IsValid, grow_buf_of-Grown}
use sqnim.Blob.{Blob, overwrite, room_for, write}
use sqnim.Prelude.{
  ℕ, zero, suc, ◌+◌, ◌-◌, ◌≤◌, ◌<◌, ◌≡◌, refl, ap, subst, ◌∙◌, true, List, [], ◌∷◌, ◌++◌, arith,
  length, take, drop, length-append, length-take, length-drop, get_elem?, get_elem?-append,
  get_elem?-take, get_elem?-drop, ltb, max, ◌⊎◌, inl, inr, Bool-cases,
}

length-overwrite :
    (at : ℕ) (bytes l : List ℕ)
    → at + length bytes ≤ length l
    → length (overwrite at bytes l) ≡ length l
length-overwrite at bytes l h = ground (
  arith,
  length-append (take at l) (bytes ++ drop (at + length bytes) l),
  length-append bytes (drop (at + length bytes) l),
  length-take at l,
  length-drop (at + length bytes) l,
)

take-append_le : (n : ℕ) (xs ys : List ℕ) → n ≡ length xs → take n (xs ++ ys) ≡ xs
take-append_le zero [] ys h = refl
take-append_le zero (x ∷ xs) ys h = absurd (omega arith)
take-append_le (suc n) [] ys h = absurd (omega arith)
take-append_le (suc n) (x ∷ xs) ys h = ap (◌∷◌ x) (take-append_le n xs ys (omega arith))

drop-append_eq : (n : ℕ) (xs ys : List ℕ) → n ≡ length xs → drop n (xs ++ ys) ≡ ys
drop-append_eq zero [] ys h = refl
drop-append_eq zero (x ∷ xs) ys h = absurd (omega arith)
drop-append_eq (suc n) [] ys h = absurd (omega arith)
drop-append_eq (suc n) (x ∷ xs) ys h = drop-append_eq n xs ys (omega arith)

overwritten :
    (at : ℕ) (bytes l : List ℕ)
    → at ≤ length l
    → take (length bytes) (drop at (overwrite at bytes l)) ≡ bytes
overwritten at bytes l h =
    rw
      (drop-append_eq at (take at l) (bytes ++ drop (at + length bytes) l)
        (omega (arith, length-take at l)))
      (take-append_le (length bytes) bytes _ refl)

get_elem?-overwrite :
    (at : ℕ) (bytes l : List ℕ) (i : ℕ)
    → at + length bytes ≤ length l
    → (i < at) ⊎ (at + length bytes ≤ i)
    → get_elem? (overwrite at bytes l) i ≡ get_elem? l i
get_elem?-overwrite at bytes l i h side = ground (
  arith,
  get_elem?-append (take at l) (bytes ++ drop (at + length bytes) l) i,
  length-take at l,
  get_elem?-take at l i,
  get_elem?-append bytes (drop (at + length bytes) l) (i - at),
  get_elem?-drop (at + length bytes) l (i - at - length bytes),
)

-- the blob that a write goes to, with room for the bytes
abbrev Ready : List ℕ → Blob → Blob → Type 0
Ready bytes b c =
    (c.size ≡ max b.size (b.ptr + length bytes))
    × (c.ptr ≡ b.ptr)
    × (c.size ≤ c.allocated)
    × (length c.buffer ≡ c.allocated)
    × (c.owns ≡ true)
    × ((i : ℕ) → i < b.size → get_elem? c.buffer i ≡ get_elem? b.buffer i)

room_for-Ready : (bytes : List ℕ) (b : Blob) → IsValid b → Ready bytes b (room_for (length bytes) b)
unfolding room_for
room_for-Ready bytes b v = elim (Bool-cases (ltb b.size (b.ptr + length bytes))) [
  | inr e ↦ rw e (ground arith, refl, v.room, v.memory, v.owned, λ i _. refl)
  | inl e ↦
      let g = grow_buf_of-Grown (b.ptr + length bytes - b.size) b v in
      rw e (ground (arith, g.size), g.ptr, g.room, g.memory, g.owned, g.content)
]

-- What a write of some bytes does to a blob.
pub record Written (bytes : List ℕ) (b c : Blob) : Type 0 where
  pub valid : IsValid c
  pub size : c.size ≡ max b.size (b.ptr + length bytes)
  pub ptr : c.ptr ≡ b.ptr + length bytes
  pub stored : take (length bytes) (drop b.ptr c.buffer) ≡ bytes
  pub kept :
      (i : ℕ)
      → i < b.size
      → (i < b.ptr) ⊎ (b.ptr + length bytes ≤ i)
      → get_elem? c.buffer i ≡ get_elem? b.buffer i

-- A write into a valid blob leaves a valid blob, reports all its bytes, moves the position past
-- them, grows the size where they pass the end, stores them at the old position, and keeps every
-- other byte of the content.
pub write-Written :
    (bytes : List ℕ) (b : Blob)
    → IsValid b
    → Written bytes b (write bytes b).0 × ((write bytes b).1 ≡ length bytes)
unfolding write
write-Written bytes b v =
    let c = room_for (length bytes) b in
    let (size, ptr, room, memory, owned, content) = room_for-Ready bytes b v in
    let fits : c.ptr + length bytes ≤ length c.buffer =
      omega (arith, v.position, size, ptr, room, memory) in
    (
      record {
        valid = record {
          position = omega (arith, size, ptr);
          room = room;
          memory = length-overwrite c.ptr bytes c.buffer fits ∙ memory;
          owned = owned;
        };
        size = size;
        ptr = ap (λ p. p + length bytes) ptr;
        stored =
            subst (λ p. take (length bytes) (drop p (overwrite c.ptr bytes c.buffer)) ≡ bytes) ptr
              (overwritten c.ptr bytes c.buffer (omega arith));
        kept = λ i hi side.
            get_elem?-overwrite c.ptr bytes c.buffer i fits (rw ptr side) ∙ content i hi;
      },
      refl,
    )
