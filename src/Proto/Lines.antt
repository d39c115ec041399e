-- ===== src/Proto/Lines.antt =====
-- `SQFunctionProto::GetLine` (sqobject.cpp): the line of an instruction, by binary search in the
-- marks that the compiler left. The array of `n` marks is a function of the position, and `high` of
-- the source, which may get below zero, is `end - 1`.
use sqnim.FuncState.Peephole.{LineInfo}
use sqnim.Prelude.Int.{ℤ}
use sqnim.Prelude.{
  ℕ, zero, suc, ◌+◌, ◌-◌, ◌/◌, ◌<◌, ◌≤◌, ◌≡◌, ◌⊎◌, inl, inr, refl, ◌&&◌, Option, none, some, arith,
  ltb, leb, if◌then◌else◌, Bool-cases, ℕ_discrete,
}

module _ (lines : ℕ → LineInfo) (n op : ℕ) where
  -- the loop, which stops with `mid`
  unfoldable pub search_line : ℕ → ℕ → ℕ → ℕ → Option ℕ
  search_line zero low end mid = none
  search_line (suc f) low end mid =
      let m : ℕ = low + (end - 1 - low) / 2 in
      let below = search_line f low m m in
      let above = search_line f (m + 1) end m in
      if ltb low end
      then (if ltb op (lines m).op
          then below
          else if ltb (lines m).op op
          then (if ltb (m + 1) n && leb op (lines (m + 1)).op then some m else above)
          else some m)
      else some mid

  -- `while(mid > 0 && _lineinfos[mid]._op >= op) mid--`
  unfoldable pub step_back : ℕ → ℕ
  step_back zero = zero
  step_back (suc m) = let less = step_back m in if leb op (lines (suc m)).op then less else suc m

  -- a round of the loop leaves less than it found, so `n + 1` rounds are enough
  unfoldable pub get_line : Option ℤ
  unfolding search_line step_back
  get_line = elim (search_line (n + 1) 0 n 0) [
    | none ↦ none
    | some mid ↦ some (lines (step_back mid)).line
  ]

  abbrev Sorted : Type 0
  Sorted = (i j : ℕ) → i ≤ j → j < n → (lines i).op ≤ (lines j).op

  -- no mark after `m` is before `op`
  abbrev IsLast : ℕ → Type 0
  IsLast m = (m < n) × ((j : ℕ) → m < j → j < n → op ≤ (lines j).op)

  step_back_lem :
      (m : ℕ)
      → IsLast m
      → IsLast (step_back m) × ((step_back m ≡ 0) ⊎ ((lines (step_back m)).op < op))
  unfolding step_back
  step_back_lem zero l = (l, inl refl)
  step_back_lem (suc m) (inside, l) = elim (Bool-cases (leb op (lines (suc m)).op)) [
    | inl more ↦
        rw (step_back, more)
          (step_back_lem m (
            omega (arith, inside),
            λ j h k. elim (ℕ_discrete j (suc m)) [
              | yes e ↦ rw e (ground (arith, more))
              | no ne ↦ l j (omega (arith, h, ne)) k
            ],
          ))
    | inr stop ↦ rw (step_back, stop) ((inside, l), inr (ground (arith, stop)))
  ]

  search_line_lem :
      (f low end mid : ℕ)
      → Sorted
      → end - low < f
      → low ≤ end
      → end ≤ n
      → ((j : ℕ) → end ≤ j → j < n → op ≤ (lines j).op)
      → mid < n
      → ((low < end) ⊎ (end ≤ mid + 1))
      → (m : ℕ) × (search_line f low end mid ≡ some m) × IsLast m
  unfolding search_line
  search_line_lem zero low end mid sorted fuel le fit rest inside last =
      absurd (omega (arith, fuel))
  search_line_lem (suc f) low end mid sorted fuel le fit rest inside last =
      elim (Bool-cases (ltb low end)) [
        | inr over ↦ (
          mid,
          rw (search_line, over) refl,
          (inside, λ j h k. rest j (ground (arith, last, over, h)) k),
        )
        | inl going ↦
            let m : ℕ = low + (end - 1 - low) / 2 in
            let bounds : (low ≤ m) × (m < end) = ground (arith, going) in
            elim (Bool-cases (ltb op (lines m).op)) [
              | inl high ↦
                  let r =
                    search_line_lem f low m m sorted (omega (arith, bounds, fuel))
                      (omega (arith, bounds)) (omega (arith, bounds, fit))
                      (λ j h k. ground (arith, high, sorted m j h k)) (omega (arith, bounds, fit))
                      (inr (omega arith)) in
                  (r.0, rw (search_line, going, high) r.1, r.2)
              | inr a ↦ elim (Bool-cases (ltb (lines m).op op)) [
                | inr same ↦ (
                  m,
                  rw (search_line, going, a, same) refl,
                  (
                    omega (arith, bounds, fit),
                    λ j h k. ground (arith, same, sorted m j (omega (arith, h)) k),
                  ),
                )
                | inl less ↦ elim (Bool-cases (ltb (m + 1) n && leb op (lines (m + 1)).op)) [
                  | inl found ↦ (
                    m,
                    rw (search_line, going, a, less, found) refl,
                    (
                      omega (arith, bounds, fit),
                      λ j h k. ground (arith, found, sorted (m + 1) j (omega (arith, h)) k),
                    ),
                  )
                  | inr on ↦
                      let r =
                        search_line_lem f (m + 1) end m sorted (omega (arith, bounds, fuel))
                          (omega (arith, bounds)) fit rest (omega (arith, bounds, fit))
                          (omega (arith, bounds)) in
                      (r.0, rw (search_line, going, a, less, on) r.1, r.2)
                ]
              ]
            ]
      ]

-- With at least one mark, and marks in the order of their instructions, the search ends and gives the
-- line of a mark: no later mark is before the instruction, and the mark is before the instruction or
-- the first one.
pub get_line_lem :
    (lines : ℕ → LineInfo) (n op : ℕ)
    → 0 < n
    → ((i j : ℕ) → i ≤ j → j < n → (lines i).op ≤ (lines j).op)
    → (m : ℕ) × (get_line lines n op ≡ some (lines m).line)
      × (m < n)
      × ((j : ℕ) → m < j → j < n → op ≤ (lines j).op)
      × ((m ≡ 0) ⊎ ((lines m).op < op))
unfolding get_line
get_line_lem lines n op some_mark sorted =
    let r =
      search_line_lem lines n op (n + 1) 0 n 0 sorted (omega arith) (omega arith) (omega arith)
        (λ j h k. absurd (omega (arith, h, k))) some_mark (inl some_mark) in
    let b = step_back_lem lines n op r.0 r.2 in
    (step_back lines n op r.0, rw (get_line, r.1) refl, b.0.0, b.0.1, b.1)
