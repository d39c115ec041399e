-- ===== src/Rex/Bounds.antt =====
-- Where a match of `sqstd_rex_matchnode` stands, and its captures.
use sqnim.Prelude.{
  ℕ, ◌+◌, ◌≤◌, ◌<◌, ◌≡◌, inl, inr, refl, ◌∙◌, Option, none, some, ltb, arith, Bool-cases,
}
use sqnim.Rex.Match.{RexMatch, Captures, Run, ◌>>=◌}

module _ (bol eol : ℕ) where
  -- a match that is not set is empty, and a set one lies in the text
  abbrev pub Fits : RexMatch → Type 0
  Fits m = elim m.begin [ none ↦ m.len ≡ 0 | some b ↦ (bol ≤ b) × (b + m.len ≤ eol) ]

  -- the captures after a part of a match: the groups that were open stand as they were
  pub record Steps (s t : Captures) : Type 0 where
    pub later : s.currsubexp ≤ t.currsubexp
    pub kept : (i : ℕ) → i < s.currsubexp → t.matches i ≡ s.matches i
    pub fits :
        ((i : ℕ) → s.currsubexp ≤ i → Fits (s.matches i))
        → (i : ℕ) → s.currsubexp ≤ i
        → Fits (t.matches i)

  pub Steps-refl : (s : Captures) → Steps s s
  Steps-refl s = record { later = omega arith; kept = λ i h. refl; fits = λ all i h. all i h }

  pub Steps-trans : (s t u : Captures) → Steps s t → Steps t u → Steps s u
  Steps-trans s t u a b = record {
    later = omega (arith, a.later, b.later);
    kept = λ i h. b.kept i (omega (arith, h, a.later)) ∙ a.kept i h;
    fits = λ all i h. elim (Bool-cases (ltb i t.currsubexp)) [
      | inl old ↦ rw (b.kept i (ground (arith, old))) (a.fits all i h)
      | inr new ↦ b.fits (λ j k. a.fits all j (omega (arith, k, a.later))) i (ground (arith, new))
    ];
  }

  -- a run from `str` on leaves good captures, and ends at or after `str` in the text
  abbrev pub RunFits : Captures → ℕ → Run → Type 0
  RunFits s str none = Unit {0}
  RunFits s str (some (t, none)) = Steps s t
  RunFits s str (some (t, some x)) = Steps s t × (str ≤ x) × (x ≤ eol)

  pub RunFits-after :
      (s t : Captures) (str cur : ℕ) (r : Run)
      → Steps s t
      → str ≤ cur
      → RunFits t cur r
      → RunFits s str r
  RunFits-after s t str cur none a h w = tt
  RunFits-after s t str cur (some (u, none)) a h w = Steps-trans s t u a w
  RunFits-after s t str cur (some (u, some x)) a h (w, lo, hi) =
      (Steps-trans s t u a w, omega (arith, h, lo), hi)

  -- a property of a run holds of what follows it
  pub run_cases :
      {B : Type 0} (P : Option B → Type 0) (s : Captures) (str : ℕ) (r : Run)
      (f : Captures × Option ℕ → Option B)
      → RunFits s str r
      → P none
      → ((t : Captures) → Steps s t → P (f (t, none)))
      → ((t : Captures) (x : ℕ) → Steps s t → str ≤ x → x ≤ eol → P (f (t, some x)))
      → P (r >>= f)
  run_cases P s str none f w n a b = n
  run_cases P s str (some (t, none)) f w n a b = a t w
  run_cases P s str (some (t, some x)) f (w, lo, hi) n a b = b t x w lo hi

pub option_cases :
    {A B : Type 0} (P : Option B → Type 0) (o : Option A) (f : A → Option B)
    → P none
    → ((a : A) → o ≡ some a → P (f a))
    → P (o >>= f)
option_cases P none f n h = n
option_cases P (some a) f n h = h a refl
