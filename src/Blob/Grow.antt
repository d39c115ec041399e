-- ===== src/Blob/Grow.antt =====
-- The invariant of a blob, and how it grows.
use sqnim.Blob.{Blob, resize, grow_buf_of, new_blob}
use sqnim.Prelude.{
  ℕ, ◌+◌, ◌-◌, ◌*◌, ◌≤◌, ◌<◌, ◌≡◌, refl, sym, ◌∙◌, true, arith, length, take, replicate,
  length-append, length-take, length-replicate, get_elem?, get_elem?-append, get_elem?-take, ltb,
  min, inl, inr, Bool-cases,
}

-- the position is in the content, the content in the memory
pub record IsValid (b : Blob) : Type 0 where
  pub position : b.ptr ≤ b.size
  pub room : b.size ≤ b.allocated
  pub memory : length b.buffer ≡ b.allocated
  pub owned : b.owns ≡ true

pub new_blob-IsValid : (n : ℕ) → IsValid (new_blob n)
unfolding new_blob
new_blob-IsValid n = record {
  position = omega arith;
  room = omega arith;
  memory = length-replicate n 0;
  owned = refl;
}

pub resize-IsValid : (n : ℕ) (b : Blob) → IsValid b → IsValid (resize n b).0
unfolding resize
resize-IsValid n b v = ground (
  arith,
  length-append (take (min b.size n) b.buffer) (replicate (n - min b.size n) 0),
  length-take (min b.size n) b.buffer,
  length-replicate {A = ℕ} (n - min b.size n) 0,
)

-- a resize that does not cut the content
record Roomier (n : ℕ) (b c : Blob) : Type 0 where
  size : c.size ≡ b.size
  ptr : c.ptr ≡ b.ptr
  allocated : c.allocated ≡ n
  memory : length c.buffer ≡ n
  owned : c.owns ≡ true
  content : (i : ℕ) → i < b.size → get_elem? c.buffer i ≡ get_elem? b.buffer i

resized_memory : (n : ℕ) (b : Blob) → IsValid b → length (resize n b).0.buffer ≡ n
unfolding resize
resized_memory n b v = ground (
  arith,
  length-append (take (min b.size n) b.buffer) (replicate (n - min b.size n) 0),
  length-take (min b.size n) b.buffer,
  length-replicate {A = ℕ} (n - min b.size n) 0,
)

resized_content :
    (n : ℕ) (b : Blob)
    → IsValid b
    → (i : ℕ) → i < b.size
    → b.size ≤ n
    → get_elem? (resize n b).0.buffer i ≡ get_elem? b.buffer i
unfolding resize
resized_content n b v i hi h = ground (
  arith,
  get_elem?-append (take (min b.size n) b.buffer) (replicate (n - min b.size n) 0) i,
  length-take (min b.size n) b.buffer,
  get_elem?-take (min b.size n) b.buffer i,
)

resize-Roomier : (n : ℕ) (b : Blob) → IsValid b → b.size ≤ n → Roomier n b (resize n b).0
resize-Roomier n b v h = record {
  size = unfold resize in ground arith;
  ptr = unfold resize in ground arith;
  allocated = unfold resize in ground arith;
  memory = resized_memory n b v;
  owned = unfold resize in ground arith;
  content = λ i hi. resized_content n b v i hi h;
}

-- growing keeps the position and the content and adds to the size, with the memory to hold it
pub record Grown (n : ℕ) (b c : Blob) : Type 0 where
  pub size : c.size ≡ b.size + n
  pub ptr : c.ptr ≡ b.ptr
  pub room : c.size ≤ c.allocated
  pub memory : length c.buffer ≡ c.allocated
  pub owned : c.owns ≡ true
  pub content : (i : ℕ) → i < b.size → get_elem? c.buffer i ≡ get_elem? b.buffer i

Roomier-Grown :
    (n m : ℕ) (b c : Blob)
    → b.size + n ≤ m
    → Roomier m b c
    → Grown n b (record c { size = c.size + n })
Roomier-Grown n m b c h r = record {
  size = omega (arith, r.size);
  ptr = r.ptr;
  room = omega (arith, r.size, r.allocated);
  memory = r.memory ∙ sym r.allocated;
  owned = r.owned;
  content = r.content;
}

pub grow_buf_of-Grown : (n : ℕ) (b : Blob) → IsValid b → Grown n b (grow_buf_of n b).0
unfolding grow_buf_of
grow_buf_of-Grown n b v = elim (Bool-cases (ltb b.allocated (b.size + n))) [
  | inr e ↦ rw e (record {
    size = refl;
    ptr = refl;
    room = ground arith;
    memory = v.memory;
    owned = v.owned;
    content = λ i _. refl;
  })
  | inl e ↦ elim (Bool-cases (ltb (b.size * 2) (b.size + n))) [
    | inl f ↦
        rw (e, f)
          (Roomier-Grown n (b.size + n) b _ (omega arith)
            (resize-Roomier (b.size + n) b v (omega arith)))
    | inr f ↦
        rw (e, f)
          (Roomier-Grown n (b.size * 2) b _ (ground arith)
            (resize-Roomier (b.size * 2) b v (omega arith)))
  ]
]
