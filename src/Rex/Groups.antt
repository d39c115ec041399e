-- ===== src/Rex/Groups.antt =====
-- Branches, groups and the nodes of one character in `sqstd_rex_matchnode`.
use sqnim.Prelude.{
  ℕ, zero, suc, ◌+◌, ◌-◌, ◌≤◌, ◌≡◌, inl, inr, refl, ◌∙◌, ap, subst, sym, true, false, not, Option,
  none, some, List, get_elem?, ◌==◌, if◌then◌else◌, arith, Bool-cases, Option-cases,
}
use sqnim.Rex.Bounds.{Fits, Steps, Steps-refl, RunFits, RunFits-after, run_cases, option_cases}
use sqnim.Rex.Chars.{one-RunFits, boundary-RunFits, balanced-RunFits, tested-RunFits}
use sqnim.Rex.Captures.{IsSound, match_greedy-RunFits}
use sqnim.Rex.Match.{
  RexMatch, Captures, set_match, Run, match_class, branch_loop, match_or, expr_loop, capture_of,
  length_to, match_expr, match_typed, match_step, match_node,
}
use sqnim.Rex.{
  RexType, rex_char, op_greedy, op_or, op_expr, op_nocapexpr, op_dot, op_class, op_cclass,
  op_nclass, op_range, op_eol, op_bol, op_wb, op_mb, RexNode, CharTypes,
}

module _ (types : CharTypes) (nodes : List RexNode) (text : ℕ → ℕ) (bol eol rounds : ℕ) where
  abbrev RunAt : Captures → ℕ → Run → Type 0
  RunAt = RunFits bol eol

  module _ (rec : Captures → ℕ → ℕ → Option ℕ → Run)
      (sound : IsSound types nodes text bol eol rounds rec) where
    branch_loop-RunFits :
        (k i : ℕ) (s : Captures) (str : ℕ)
        → bol ≤ str
        → str ≤ eol
        → RunAt s str (branch_loop types nodes text bol eol rounds rec k i s str)
    unfolding branch_loop
    branch_loop-RunFits zero i s str lo hi = tt
    branch_loop-RunFits (suc k) i s str lo hi =
        run_cases bol eol (RunAt s str) s str (rec s i str none) _ (sound s i str none lo hi) tt
          (λ t w. w)
          (λ t x w a b. option_cases (RunAt s str) (get_elem? nodes i) _ tt λ temp e.
            elim temp.next
              as (λ o. RunAt s str (elim o [
                | none ↦ some (t, some x)
                | some j ↦ branch_loop types nodes text bol eol rounds rec k j t x
              ])) [
                | none ↦ (w, a, b)
                | some j ↦
                    RunFits-after bol eol s t str x _ w a
                      (branch_loop-RunFits k j t x (omega (arith, lo, a)) b)
              ])

    match_or-RunFits :
        (node : RexNode) (s : Captures) (str : ℕ)
        → bol ≤ str
        → str ≤ eol
        → RunAt s str (match_or types nodes text bol eol rounds rec node s str)
    unfolding match_or
    match_or-RunFits node s str lo hi = option_cases (RunAt s str) node.left _ tt λ l e.
        run_cases bol eol (RunAt s str) s str
          (branch_loop types nodes text bol eol rounds rec rounds l s str) _
          (branch_loop-RunFits rounds l s str lo hi) tt
          (λ t w. option_cases (RunAt s str) node.right _ tt λ r e'.
            RunFits-after bol eol s t str str _ w (omega arith)
              (branch_loop-RunFits rounds r t str lo hi))
          (λ t x w a b. (w, a, b))

    expr_loop-RunFits :
        (k : ℕ) (follow : Option ℕ) (i : ℕ) (s : Captures) (cur : ℕ)
        → bol ≤ cur
        → cur ≤ eol
        → RunAt s cur (expr_loop types nodes text bol eol rounds rec k follow i s cur)
    unfolding expr_loop
    expr_loop-RunFits zero follow i s cur lo hi = tt
    expr_loop-RunFits (suc k) follow i s cur lo hi =
        option_cases (RunAt s cur) (get_elem? nodes i) _ tt λ n e.
          let stop : Option ℕ = elim n.next [ none ↦ follow | some j ↦ some j ] in
          run_cases bol eol (RunAt s cur) s cur (rec s i cur stop) _ (sound s i cur stop lo hi) tt
            (λ t w. w)
            (λ t x w a b.
              elim n.next
                as (λ o. RunAt s cur (elim o [
                  | none ↦ some (t, some x)
                  | some j ↦ expr_loop types nodes text bol eol rounds rec k follow j t x
                ])) [
                  | none ↦ (w, a, b)
                  | some j ↦
                      RunFits-after bol eol s t cur x _ w a
                        (expr_loop-RunFits k follow j t x (omega (arith, lo, a)) b)
                ])

    -- leaving a group that is not captured
    plain-Steps :
        (s t : Captures)
        → Steps bol eol s t
        → Steps bol eol s (record t { currsubexp = s.currsubexp })
    plain-Steps s t w = record { later = omega arith; kept = w.kept; fits = w.fits }

    -- entering the group `c`, and what is inside
    abbrev entered : Captures → ℕ → ℕ → Captures
    entered s c str =
        record (set_match s c (record { begin = some str; len = (s.matches c).len })) {
          currsubexp = s.currsubexp + 1;
        }

    -- leaving it, with a match that fits
    group-Steps :
        (s t u : Captures) (c str : ℕ) (m : RexMatch)
        → c ≡ s.currsubexp
        → Steps bol eol (entered s c str) t
        → Fits bol eol m
        → s.currsubexp ≤ u.currsubexp
        → ((i : ℕ) → u.matches i ≡ (if i == c then m else t.matches i))
        → Steps bol eol s u
    unfolding set_match
    group-Steps s t u c str m e w fit later new =
        let other : (j : ℕ) → s.currsubexp + 1 ≤ j → (j == c) ≡ false =
          λ j k. ground (arith, k, e) in
        record {
          later = later;
          kept = λ i h. new i ∙ ground (arith, w.kept i, h, e);
          fits = λ all i h. rw (new i) (elim (Bool-cases (i == c)) [
            | inl y ↦ rw y fit
            | inr n ↦ rw n (
                w.fits (λ j k. rw (other j k) (all j (omega (arith, k)))) i
                  (ground (arith, n, e, h)))
          ]);
        }

    entered-begin :
        (s t : Captures) (c str : ℕ)
        → c ≡ s.currsubexp
        → Steps bol eol (entered s c str) t
        → (t.matches c).begin ≡ some str
    unfolding set_match
    entered-begin s t c str e w =
        let same : (c == c) ≡ true = ground arith in
        ap (λ (m : RexMatch). m.begin) (w.kept c (omega (arith, e))) ∙ rw same refl

    closed-Fits :
        (o : Option ℕ) (str x : ℕ)
        → o ≡ some str
        → bol ≤ str
        → str ≤ x
        → x ≤ eol
        → Fits bol eol (record { begin = o; len = length_to o x })
    unfolding length_to
    closed-Fits o str x e lo a b =
        subst (λ (q : Option ℕ). Fits bol eol (record { begin = q; len = length_to q x })) (sym e)
          (lo, omega (arith, a, b))

    capture_of_lem :
        (node : RexNode) (s : Captures) (c : ℕ)
        → capture_of types nodes text bol eol rounds rec node s ≡ some c
        → c ≡ s.currsubexp
    unfolding capture_of
    capture_of_lem node s c h = ground (arith, h)

    match_expr-RunFits :
        (node : RexNode) (s : Captures) (str : ℕ) (follow : Option ℕ)
        → bol ≤ str
        → str ≤ eol
        → RunAt s str (match_expr types nodes text bol eol rounds rec node s str follow)
    unfolding match_expr set_match length_to
    match_expr-RunFits node s str follow lo hi = option_cases (RunAt s str) node.left _ tt λ l e.
        elim (Option-cases (capture_of types nodes text bol eol rounds rec node s)) [
          | inl plain ↦ rw plain (
              run_cases bol eol (RunAt s str) s str
                (expr_loop types nodes text bol eol rounds rec rounds follow l s str) _
                (expr_loop-RunFits rounds follow l s str lo hi) tt (λ t w. w)
                (λ t x w a b. (plain-Steps s t w, a, b)))
          | inr (c, group) ↦ rw group (
              run_cases bol eol (RunAt s str) (entered s c str) str
                (expr_loop types nodes text bol eol rounds rec rounds follow l (entered s c str)
                  str)
                _ (expr_loop-RunFits rounds follow l (entered s c str) str lo hi) tt
                (λ t w.
                  group-Steps s t _ c str (record { begin = none; len = 0 })
                    (capture_of_lem node s c group) w refl (omega (arith, w.later)) (λ i. refl))
                (λ t x w a b. (
                  group-Steps s t _ c str _ (capture_of_lem node s c group) w
                      (closed-Fits _ str x
                        (entered-begin s t c str (capture_of_lem node s c group) w) lo a b)
                      (omega arith) (λ i. refl),
                  a,
                  b,
                )))
        ]

    typed-RunFits :
        (type : RexType) (node : RexNode) (s : Captures) (str : ℕ) (follow : Option ℕ)
        → bol ≤ str
        → str ≤ eol
        → RunAt s str (match_typed types nodes text bol eol rounds rec type node s str follow)
    unfolding match_typed
    typed-RunFits op_greedy node s str follow lo hi =
        match_greedy-RunFits types nodes text bol eol rounds rec sound node s str follow lo hi
    typed-RunFits op_or node s str follow lo hi = match_or-RunFits node s str lo hi
    typed-RunFits op_expr node s str follow lo hi = match_expr-RunFits node s str follow lo hi
    typed-RunFits op_nocapexpr node s str follow lo hi = match_expr-RunFits node s str follow lo hi
    typed-RunFits op_wb node s str follow lo hi =
        option_cases (RunAt s str) node.left _ tt
          λ l e. boundary-RunFits types nodes text bol eol rounds l s str hi
    typed-RunFits op_bol node s str follow lo hi =
        tested-RunFits types nodes text bol eol rounds (str == bol) s str hi
    typed-RunFits op_eol node s str follow lo hi =
        tested-RunFits types nodes text bol eol rounds (str == eol) s str hi
    typed-RunFits op_dot node s str follow lo hi =
        one-RunFits types nodes text bol eol rounds true s str hi
    typed-RunFits op_class node s str follow lo hi =
        option_cases (RunAt s str) node.left _ tt λ l e.
          option_cases (RunAt s str)
            (match_class types nodes text bol eol rounds rounds l (text str)) _ tt
            λ test e'. one-RunFits types nodes text bol eol rounds test s str hi
    typed-RunFits op_nclass node s str follow lo hi =
        option_cases (RunAt s str) node.left _ tt λ l e.
          option_cases (RunAt s str)
            (match_class types nodes text bol eol rounds rounds l (text str)) _ tt
            λ test e'. one-RunFits types nodes text bol eol rounds (not test) s str hi
    typed-RunFits op_cclass node s str follow lo hi =
        option_cases (RunAt s str) node.left _ tt
          λ l e. one-RunFits types nodes text bol eol rounds _ s str hi
    typed-RunFits op_mb node s str follow lo hi = option_cases (RunAt s str) node.left _ tt λ cb e.
        option_cases (RunAt s str) node.right _ tt λ ce e'. elim (Bool-cases (text str == cb)) [
          | inl y ↦ rw y (
              balanced-RunFits types nodes text bol eol rounds (eol - str) cb ce str 1 s str
                (omega arith))
          | inr n ↦ rw n (Steps-refl bol eol s)
        ]
    typed-RunFits op_range node s str follow lo hi =
        one-RunFits types nodes text bol eol rounds _ s str hi
    typed-RunFits (rex_char c) node s str follow lo hi =
        one-RunFits types nodes text bol eol rounds _ s str hi

    match_step-RunFits :
        (s : Captures) (i str : ℕ) (follow : Option ℕ)
        → bol ≤ str
        → str ≤ eol
        → RunAt s str (match_step types nodes text bol eol rounds rec s i str follow)
    unfolding match_step
    match_step-RunFits s i str follow lo hi =
        option_cases (RunAt s str) (get_elem? nodes i) _ tt
          λ node e. typed-RunFits node.node_type node s str follow lo hi

  pub match_node-IsSound :
      (f : ℕ)
      → IsSound types nodes text bol eol rounds (match_node types nodes text bol eol rounds f)
  unfolding match_node
  match_node-IsSound zero s i str follow lo hi = tt
  match_node-IsSound (suc f) s i str follow lo hi =
      match_step-RunFits (match_node types nodes text bol eol rounds f) (match_node-IsSound f) s i
        str follow lo hi
