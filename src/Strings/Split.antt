-- ===== src/Strings/Split.antt =====
-- What the pieces of a split are.
use sqnim.Prelude.{
  ℕ, ◌≡◌, ◌≢◌, ◌⊎◌, inl, inr, refl, ap, ◌∙◌, false, List, [], ◌∷◌, ◌++◌, arith, append_assoc, ◌==◌,
  Bool-cases, if◌then◌else◌,
}
use sqnim.Strings.{pieces, split, split_loop, is_empty}

-- the pieces, each followed by the separator
abbrev pub joined : ℕ → List (List ℕ) → List ℕ
joined c [] = []
joined c (p ∷ ps) = p ++ c ∷ joined c ps

abbrev pub Lacks : ℕ → List ℕ → Type 0
Lacks c [] = Unit {0}
Lacks c (d ∷ s) = (d ≢ c) × Lacks c s

abbrev pub AllLack : ℕ → List (List ℕ) → Type 0
AllLack c [] = Unit {0}
AllLack c (p ∷ ps) = Lacks c p × AllLack c ps

Lacks-append : (c : ℕ) (s t : List ℕ) → Lacks c s → Lacks c t → Lacks c (s ++ t)
Lacks-append c [] t h k = k
Lacks-append c (d ∷ s) t (n, h) k = (n, Lacks-append c s t h k)

last-AllLack :
    (c : ℕ) (text : List ℕ) → Lacks c text → AllLack c (if is_empty text then [] else text ∷ [])
last-AllLack c [] h = tt
last-AllLack c (x ∷ text) h = (h, tt)

split_loop-AllLack :
    (c : ℕ) (text s : List ℕ) → Lacks c text → AllLack c (split_loop (c ∷ []) false text s)
unfolding split_loop
split_loop-AllLack c [] [] h = tt
split_loop-AllLack c (x ∷ text) [] h = (h, tt)
split_loop-AllLack c text (d ∷ s) h = elim (Bool-cases (d == 0)) [
  | inl ends ↦ rw ends (last-AllLack c text h)
  | inr more ↦ elim (Bool-cases (d == c)) [
    | inl here ↦ rw (more, here) (h, split_loop-AllLack c [] s tt)
    | inr other ↦
        let differs : d ≢ c = ground arith in
        rw (more, other)
          (split_loop-AllLack c (text ++ d ∷ []) s (Lacks-append c text (d ∷ []) h (differs, tt)))
  ]
]

split_loop-joined :
    (c : ℕ) (text s : List ℕ)
    → Lacks 0 s
    → (joined c (split_loop (c ∷ []) false text s) ≡ text ++ s)
      ⊎ (joined c (split_loop (c ∷ []) false text s) ≡ text ++ (s ++ c ∷ []))
unfolding split_loop
split_loop-joined c [] [] h = inl refl
split_loop-joined c (x ∷ text) [] h = inr refl
split_loop-joined c text (d ∷ s) (nz, h) = elim (Bool-cases (d == c)) [
  | inl here ↦
      let same : d ≡ c = ground arith in
      let more : (d == 0) ≡ false = ground arith in
      rw (more, here, same)
        (elim (split_loop-joined c [] s h) [
          | inl e ↦ inl (ap (λ q. text ++ c ∷ q) e)
          | inr e ↦ inr (ap (λ q. text ++ c ∷ q) e)
        ])
  | inr other ↦
      let more : (d == 0) ≡ false = ground arith in
      rw (more, other)
        (elim (split_loop-joined c (text ++ d ∷ []) s h) [
          | inl e ↦ inl (e ∙ append_assoc text (d ∷ []) s)
          | inr e ↦ inr (e ∙ append_assoc text (d ∷ []) (s ++ c ∷ []))
        ])
]

-- Splitting a text with no byte 0 at one separator, empty pieces kept, succeeds; no piece holds
-- the separator; and the pieces, each followed by the separator, are the text or the text
-- followed by one separator.
pub split-joined :
    (c : ℕ) (s : List ℕ)
    → Lacks 0 s
    → (ps : List (List ℕ)) × (split s (c ∷ []) false ≡ pieces ps)
      × AllLack c ps
      × ((joined c ps ≡ s) ⊎ (joined c ps ≡ s ++ c ∷ []))
unfolding split
split-joined c s h =
    (split_loop (c ∷ []) false [] s, refl, split_loop-AllLack c [] s tt, split_loop-joined c [] s h)
