-- ===== src/Rex/Chars.antt =====
-- The nodes of `sqstd_rex_matchnode` that look at characters only.
use sqnim.Prelude.{
  ℕ, zero, suc, ◌+◌, ◌-◌, ◌≤◌, ◌<◌, inl, inr, Bool, true, false, not, ◌&&◌, ◌||◌, none, some, List,
  leb, ◌==◌, if◌then◌else◌, arith, Bool-cases,
}
use sqnim.Rex.Bounds.{Steps-refl, RunFits}
use sqnim.Rex.Match.{Captures, Run, match_balanced, match_boundary, match_one}
use sqnim.Rex.{RexNode, CharTypes}

module _ (types : CharTypes) (nodes : List RexNode) (text : ℕ → ℕ) (bol eol rounds : ℕ) where
  abbrev RunAt : Captures → ℕ → Run → Type 0
  RunAt = RunFits bol eol

  accepted :
      (b : Bool) (s : Captures) (str : ℕ)
      → str < eol
      → RunAt s str (some (s, if b then some (str + 1) else none))
  accepted true s str h = (Steps-refl bol eol s, omega arith, omega (arith, h))
  accepted false s str h = Steps-refl bol eol s

  pub tested-RunFits :
      (b : Bool) (s : Captures) (str : ℕ)
      → str ≤ eol
      → RunAt s str (some (s, if b then some str else none))
  tested-RunFits true s str h = (Steps-refl bol eol s, omega arith, h)
  tested-RunFits false s str h = Steps-refl bol eol s

  refused :
      (b : Bool) (s : Captures) (str : ℕ)
      → str ≤ eol
      → RunAt s str (some (s, if b then none else some str))
  refused true s str h = Steps-refl bol eol s
  refused false s str h = (Steps-refl bol eol s, omega arith, h)

  abbrev boundary_test : ℕ → Bool
  boundary_test str =
      ((str == bol) && not (types.is_space (text str)))
      || ((str == eol) && not (types.is_space (text (str - 1))))
      || (not (types.is_space (text str)) && types.is_space (text (str + 1)))
      || (types.is_space (text str) && not (types.is_space (text (str + 1))))

  pub one-RunFits :
      (b : Bool) (s : Captures) (str : ℕ)
      → str ≤ eol
      → RunAt s str (some (s, match_one types nodes text bol eol rounds b str))
  unfolding match_one
  one-RunFits b s str hi = elim (Bool-cases (str == eol)) [
    | inl y ↦ rw y (Steps-refl bol eol s)
    | inr n ↦ rw n (accepted b s str (ground (arith, n, hi)))
  ]

  pub boundary-RunFits :
      (l : ℕ) (s : Captures) (str : ℕ)
      → str ≤ eol
      → RunAt s str (some (s, match_boundary types nodes text bol eol rounds l str))
  unfolding match_boundary
  boundary-RunFits l s str hi = elim (Bool-cases (boundary_test str)) [
    | inl y ↦ rw y (tested-RunFits (l == b'b') s str hi)
    | inr n ↦ rw n (refused (l == b'b') s str hi)
  ]

  pub balanced-RunFits :
      (more cb ce str cont : ℕ) (s : Captures) (start : ℕ)
      → start ≤ str
      → RunAt s start (some (s, match_balanced types nodes text bol eol rounds more cb ce str cont))
  unfolding match_balanced
  balanced-RunFits zero cb ce str cont s start lo = Steps-refl bol eol s
  balanced-RunFits (suc more) cb ce str cont s start lo =
      let inner = λ (k : ℕ). balanced-RunFits more cb ce (str + 1) k s start (omega (arith, lo)) in
      elim (Bool-cases (leb eol (str + 1))) [
        | inl y ↦ rw y (Steps-refl bol eol s)
        | inr n ↦ elim (Bool-cases (text (str + 1) == ce)) [
          | inl close ↦ elim (Bool-cases (cont == 1)) [
            | inl last ↦
                rw (n, close, last) (Steps-refl bol eol s, omega (arith, lo), ground (arith, n))
            | inr deeper ↦ rw (n, close, deeper) (inner (cont - 1))
          ]
          | inr other ↦ elim (Bool-cases (text (str + 1) == cb)) [
            | inl again ↦ rw (n, other, again) (inner (cont + 1))
            | inr plain ↦ rw (n, other, plain) (inner cont)
          ]
        ]
      ]
