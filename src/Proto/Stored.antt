-- ===== src/Proto/Stored.antt =====
-- What it means that bytes that a writer emits are what a reader needs, and how this goes through
-- sequences of both.
use sqnim.Prelude.{
  ℕ, zero, suc, ◌-◌, ◌<◌, ◌≤◌, ◌≡◌, refl, ap, ◌∙◌, none, some, List, [], ◌∷◌, ◌++◌, length, take,
  drop, arith, ltb, if◌then◌else◌, Bool-cases, inl, inr, append_assoc, length-append, length-take,
}
use sqnim.Proto.Reading.{Reader, give, ◌>>=◌, safe_read}
use sqnim.Proto.Writing.{Writer, done, ◌>>◌, safe_write}

-- The writer emits the bytes if there is room, and nothing else; the reader takes them for the value
-- whatever follows, and fails on a part of them.
pub record Stored {A : Type 0} (w : Writer) (p : Reader A) (a : A) : Type 0 where
  pub bytes : List ℕ
  pub emits :
      (room : ℕ)
      → w room ≡ (if ltb room (length bytes) then none else some (bytes, room - length bytes))
  pub whole : (rest : List ℕ) → p (bytes ++ rest) ≡ some (a, rest)
  pub cut : (n : ℕ) → n < length bytes → p (take n bytes) ≡ none

module _ {A : Type 0} where
  take-append_low : (n : ℕ) (l r : List A) → n ≤ length l → take n (l ++ r) ≡ take n l
  take-append_low zero l r h = refl
  take-append_low (suc n) [] r h = absurd (omega (arith, h))
  take-append_low (suc n) (x ∷ l) r h = ap (λ t. x ∷ t) (take-append_low n l r (omega (arith, h)))

  take-append_high :
      (n : ℕ) (l r : List A) → length l ≤ n → take n (l ++ r) ≡ l ++ take (n - length l) r
  take-append_high n [] r h = let same : n - 0 ≡ n = omega arith in rw same refl
  take-append_high zero (x ∷ l) r h = absurd (omega (arith, h))
  take-append_high (suc n) (x ∷ l) r h =
      let same : suc n - suc (length l) ≡ n - length l = omega arith in
      rw same (ap (λ t. x ∷ t) (take-append_high n l r (omega (arith, h))))

  take_whole : (l r : List A) → take (length l) (l ++ r) ≡ l
  take_whole [] r = refl
  take_whole (x ∷ l) r = ap (λ t. x ∷ t) (take_whole l r)

  drop_whole : (l r : List A) → drop (length l) (l ++ r) ≡ r
  drop_whole [] r = refl
  drop_whole (x ∷ l) r = drop_whole l r

module _ {A B : Type 0} (p : Reader A) (q : A → Reader B) (l : List ℕ) where
  bind_some : (a : A) (r : List ℕ) → p l ≡ some (a, r) → (p >>= q) l ≡ q a r
  unfolding ◌>>=◌
  bind_some a r e = rw (◌>>=◌, e) refl

  bind_none : p l ≡ none → (p >>= q) l ≡ none
  unfolding ◌>>=◌
  bind_none e = rw (◌>>=◌, e) refl

-- a writer that emits these bytes if there is room
abbrev Emits : Writer → List ℕ → Type 0
Emits w l = (room : ℕ) → w room ≡ (if ltb room (length l) then none else some (l, room - length l))

Emits-seq : (w₁ w₂ : Writer) (a b : List ℕ) → Emits w₁ a → Emits w₂ b → Emits (w₁ >> w₂) (a ++ b)
unfolding ◌>>◌
Emits-seq w₁ w₂ a b f g room = ground (arith, f room, g (room - length a), length-append a b)

module _ {A B : Type 0} {w₁ w₂ : Writer} {p : Reader A} (q : A → Reader B) {a : A} {b : B} where
  pub Stored-seq : Stored w₁ p a → Stored w₂ (q a) b → Stored (w₁ >> w₂) (p >>= q) b
  Stored-seq s t = record {
    bytes = s.bytes ++ t.bytes;
    emits = Emits-seq w₁ w₂ s.bytes t.bytes s.emits t.emits;
    whole = λ rest.
        bind_some p q _ a (t.bytes ++ rest)
          (rw (append_assoc s.bytes t.bytes rest) (s.whole (t.bytes ++ rest)))
        ∙ t.whole rest;
    cut = λ n h. elim (Bool-cases (ltb n (length s.bytes))) [
      | inl low ↦
          let low' : n < length s.bytes = ground (arith, low) in
          bind_none p q _
            (rw (take-append_low n s.bytes t.bytes (omega (arith, low'))) (s.cut n low'))
      | inr high ↦
          let high' : length s.bytes ≤ n = ground (arith, high) in
          bind_some p q _ a (take (n - length s.bytes) t.bytes) (
            rw (take-append_high n s.bytes t.bytes high')
              (s.whole (take (n - length s.bytes) t.bytes)))
          ∙ t.cut (n - length s.bytes) (omega (arith, h, high', length-append s.bytes t.bytes))
    ];
  }

module _ {A B : Type 0} {w : Writer} {p : Reader A} (q : A → Reader B) {a : A} {b : B} where
  pub Stored-give : Stored w p a → q a ≡ give b → Stored w (p >>= q) b
  unfolding give
  Stored-give s e = record {
    bytes = s.bytes;
    emits = s.emits;
    whole = λ rest. bind_some p q _ a rest (s.whole rest) ∙ ap (λ r. r rest) e;
    cut = λ n h. bind_none p q _ (s.cut n h);
  }

pub Stored-done : {A : Type 0} (a : A) → Stored done (give a) a
unfolding done give
Stored-done a = record {
  bytes = [];
  emits = λ room. ground arith;
  whole = λ rest. refl;
  cut = λ n h. absurd (omega (arith, h));
}

pub Stored-bytes : (l : List ℕ) (n : ℕ) → length l ≡ n → Stored (safe_write l) (safe_read n) l
unfolding safe_write safe_read
Stored-bytes l n e = record {
  bytes = l;
  emits = λ room. refl;
  whole = λ rest. ground (arith, e, length-append l rest, take_whole l rest, drop_whole l rest);
  cut = λ k h. ground (arith, e, h, length-take k l);
}
