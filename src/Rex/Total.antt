-- ===== src/Rex/Total.antt =====
-- The loops and the parts of `sqstd_rex_matchnode`, on nodes whose links lead downwards.
use native.Mathlib.Nat.{mod-lt}
use sqnim.Prelude.{
  ℕ, zero, suc, ◌+◌, ◌*◌, ◌/◌, ◌%◌, ◌≤◌, ◌<◌, ◌≡◌, inl, inr, refl, sym, subst, ◌∙◌, some-injective,
  ◌&&◌, ◌||◌, Option, none, some, List, length, get_elem?, ltb, leb, ◌==◌, arith, Bool-cases,
  Option-cases,
}
use sqnim.Rex.Ends.{
  Ends, Ends-bind, hit-Ends, get_elem?-Ends, NextBelow, LinkBelow, LinksBelow, IsRanked, weight,
  weight-pos, weight-lt, follow_weight, depth,
}
use sqnim.Rex.Match.{
  Captures, Run, ◌>>=◌, in_class_node, is_greedy, packed_of, match_class, greedy_stops, next_stop,
  greedy_loop, match_greedy, branch_loop, match_or, expr_loop, capture_of, match_expr, match_typed,
  match_step, match_node,
}
use sqnim.Rex.{
  RexType, rex_char, op_greedy, op_or, op_expr, op_nocapexpr, op_dot, op_class, op_cclass,
  op_nclass, op_range, op_eol, op_bol, op_wb, op_mb, RexNode, CharTypes,
}

module _ (types : CharTypes) (nodes : List RexNode) (text : ℕ → ℕ) (bol eol rounds : ℕ)
    (rank : ℕ → ℕ) (ranked : IsRanked nodes rank) (low : (i : ℕ) → rank i < rounds)
    (long : 65537 ≤ rounds) where
  -- a node that may follow
  abbrev Known : Option ℕ → Type 0
  Known none = Unit {0}
  Known (some j) = j < length nodes

  -- a run that ends wherever its depth is at most `d`
  abbrev pub EndsAt : (Captures → ℕ → ℕ → Option ℕ → Run) → ℕ → Type 0
  EndsAt rec d =
      (s : Captures) (i str : ℕ) (follow : Option ℕ)
      → i < length nodes
      → Known follow
      → depth rank i follow ≤ d
      → Ends (rec s i str follow)

  -- what follows a node inside its list
  abbrev stop_of : Option ℕ → Option ℕ → Option ℕ
  stop_of next follow = elim next [ none ↦ follow | some j ↦ some j ]

  stop_of-Known :
      (i : ℕ) (next follow : Option ℕ)
      → NextBelow nodes rank i next
      → Known follow
      → Known (stop_of next follow)
  stop_of-Known i none follow w k = k
  stop_of-Known i (some j) follow (inside, lower) k = inside

  stop_of-weight :
      (i : ℕ) (next follow : Option ℕ)
      → NextBelow nodes rank i next
      → 4 * follow_weight rank (stop_of next follow)
        ≤ weight (rank i) + 4 * follow_weight rank follow
  stop_of-weight i none follow w = omega arith
  stop_of-weight i (some j) follow (inside, lower) =
      omega (arith, weight-lt (rank j) (rank i) lower)

  next-weight :
      (i : ℕ) (next : Option ℕ)
      → NextBelow nodes rank i next
      → 4 * follow_weight rank next ≤ weight (rank i)
  next-weight i none w = omega arith
  next-weight i (some j) (inside, lower) = weight-lt (rank j) (rank i) lower

  next-Known : (i : ℕ) (next : Option ℕ) → NextBelow nodes rank i next → Known next
  next-Known i none w = tt
  next-Known i (some j) (inside, lower) = inside

  below_cases :
      {B : Type 0} (i : ℕ) (next : Option ℕ) (a : Option B) (f : ℕ → Option B)
      → NextBelow nodes rank i next
      → Ends a
      → ((j : ℕ) → j < length nodes → rank j < rank i → Ends (f j))
      → Ends (elim next [ none ↦ a | some j ↦ f j ])
  below_cases i none a f w e h = e
  below_cases i (some j) a f (inside, lower) e h = h j inside lower

  match_class-Ends :
      (k i c : ℕ)
      → i < length nodes
      → rank i < k
      → Ends (match_class types nodes text bol eol rounds k i c)
  unfolding match_class
  match_class-Ends zero i c inside h = absurd (omega (arith, h))
  match_class-Ends (suc k) i c inside h =
      Ends-bind (get_elem? nodes i) _ (get_elem?-Ends nodes i inside) λ node e.
        elim (Bool-cases (in_class_node types nodes text bol eol rounds node c)) [
          | inl y ↦ rw y tt
          | inr n ↦ rw n (
              below_cases i node.next _ _ (ranked i node e).0 tt
                (λ j inner lower. match_class-Ends k j c inner (omega (arith, lower, h))))
        ]

  module _ (rec : Captures → ℕ → ℕ → Option ℕ → Run) (d : ℕ) (ends : EndsAt rec d) where
    branch_loop-Ends :
        (k i str : ℕ) (s : Captures)
        → i < length nodes
        → weight (rank i) ≤ d
        → rank i < k
        → Ends (branch_loop types nodes text bol eol rounds rec k i s str)
    unfolding branch_loop
    branch_loop-Ends zero i str s inside fits h = absurd (omega (arith, h))
    branch_loop-Ends (suc k) i str s inside fits h =
        Ends-bind (rec s i str none) _ (ends s i str none inside tt (omega (arith, fits)))
          λ (t, hit) e. hit-Ends hit _ _ tt λ asd.
            Ends-bind (get_elem? nodes i) _ (get_elem?-Ends nodes i inside) λ temp e'.
              below_cases i temp.next _ _ (ranked i temp e').0 tt λ j inner lower.
                branch_loop-Ends k j asd t inner
                  (omega (arith, fits, weight-lt (rank j) (rank i) lower)) (omega (arith, lower, h))

    expr_loop-Ends :
        (k : ℕ) (follow : Option ℕ) (i cur : ℕ) (s : Captures)
        → i < length nodes
        → Known follow
        → 2 * weight (rank i) + 2 * follow_weight rank follow ≤ d
        → rank i < k
        → Ends (expr_loop types nodes text bol eol rounds rec k follow i s cur)
    unfolding expr_loop
    expr_loop-Ends zero follow i cur s inside known fits h = absurd (omega (arith, h))
    expr_loop-Ends (suc k) follow i cur s inside known fits h =
        Ends-bind (get_elem? nodes i) _ (get_elem?-Ends nodes i inside) λ n e.
          let (below, links) = ranked i n e in
          Ends-bind (rec s i cur (stop_of n.next follow)) _
            (ends s i cur (stop_of n.next follow) inside (stop_of-Known i n.next follow below known)
              (omega (arith, fits, stop_of-weight i n.next follow below)))
            λ (t, hit) e'. hit-Ends hit _ _ tt λ x.
              below_cases i n.next _ _ below tt λ j inner lower.
                expr_loop-Ends k follow j x t inner known
                  (omega (arith, fits, weight-lt (rank j) (rank i) lower)) (omega (arith, lower, h))

    follow_Ends :
        (follow : Option ℕ)
        → Known follow
        → Ends {A = Option ℕ} (elim follow [
          | none ↦ some none
          | some i ↦ get_elem? nodes i >>= λ node. some node.next
        ])
    follow_Ends none known = tt
    follow_Ends (some i) known =
        Ends-bind (get_elem? nodes i) _ (get_elem?-Ends nodes i known) λ node e. tt

    next_stop-Ends :
        (stop : RexNode) (follow : Option ℕ)
        → Known follow
        → Ends (next_stop types nodes text bol eol rounds stop follow)
    unfolding next_stop
    next_stop-Ends stop follow known = hit-Ends stop.next _ _ (follow_Ends follow known) λ n. tt

    chosen_stop :
        (g : ℕ) (next follow gnext : Option ℕ)
        → NextBelow nodes rank g next
        → Known follow
        → (elim next [
          | some n ↦ some (some n)
          | none ↦ elim follow [
            | none ↦ some none
            | some i ↦ get_elem? nodes i >>= λ node. some node.next
          ]
        ])
          ≡ some gnext
        → Known gnext × (4 * follow_weight rank gnext ≤ weight (rank g) + follow_weight rank follow)
    chosen_stop g (some n) follow gnext (inside, lower) known h =
        subst
          (λ q. Known q × (4 * follow_weight rank q ≤ weight (rank g) + follow_weight rank follow))
          (some-injective (some n) gnext h)
          (inside, omega (arith, weight-lt (rank n) (rank g) lower))
    chosen_stop g none none gnext below known h =
        subst (λ q. Known q × (4 * follow_weight rank q ≤ weight (rank g) + 0))
          (some-injective none gnext h) (tt, omega arith)
    chosen_stop g none (some i) gnext below known h = elim (Option-cases (get_elem? nodes i)) [
      | inl out ↦ absurd (subst Ends out (get_elem?-Ends nodes i known))
      | inr (node, e) ↦
          let same : (get_elem? nodes i >>= λ n. some n.next) ≡ some node.next = rw e refl in
          let low_next = (ranked i node e).0 in
          subst (λ q. Known q × (4 * follow_weight rank q ≤ weight (rank g) + weight (rank i)))
            (some-injective node.next gnext (sym same ∙ h))
            (next-Known i node.next low_next, omega (arith, next-weight i node.next low_next))
    ]

    -- the node after the next one is below one of the two
    next_stop_lem :
        (g : ℕ) (stop : RexNode) (follow gnext : Option ℕ)
        → NextBelow nodes rank g stop.next
        → Known follow
        → next_stop types nodes text bol eol rounds stop follow ≡ some gnext
        → Known gnext × (4 * follow_weight rank gnext ≤ weight (rank g) + follow_weight rank follow)
    unfolding next_stop
    next_stop_lem g stop follow gnext below known h =
        chosen_stop g stop.next follow gnext below known h

    -- the test of the node `g`, which is not too deep
    stops_at-Ends :
        (p0 p1 n g str : ℕ) (follow : Option ℕ) (s : Captures)
        → g < length nodes
        → Known follow
        → 3 * weight (rank g) + follow_weight rank follow ≤ 2 * d
        → Ends (greedy_stops types nodes text bol eol rounds rec p0 p1 n (some g) follow s str)
    unfolding greedy_stops
    stops_at-Ends p0 p1 n g str follow s inside known fits =
        Ends-bind (get_elem? nodes g) _ (get_elem?-Ends nodes g inside) λ stop e.
          elim (Bool-cases (is_greedy stop.node_type && (packed_of stop / 65536 % 65536 == 0))) [
            | inl y ↦ rw y tt
            | inr n' ↦ rw n' (
                Ends-bind (next_stop types nodes text bol eol rounds stop follow) _
                  (next_stop-Ends stop follow known)
                  λ gnext e'.
                    let (known', light) =
                      next_stop_lem g stop follow gnext (ranked g stop e).0 known e' in
                    Ends-bind (rec s g str gnext) _
                      (ends s g str gnext inside known' (omega (arith, fits, light)))
                      λ (t, hit) e''. hit-Ends hit _ _ tt λ x. tt)
          ]

    greedy_stops-Ends :
        (p0 p1 n i str : ℕ) (next follow : Option ℕ) (s : Captures)
        → NextBelow nodes rank i next
        → Known follow
        → weight (rank i) + 2 * follow_weight rank follow ≤ d + 1
        → Ends (
            greedy_stops types nodes text bol eol rounds rec p0 p1 n
              (stop_of next follow)
              follow
              s
              str)
    unfolding greedy_stops
    greedy_stops-Ends p0 p1 n i str none none s below known fits = tt
    greedy_stops-Ends p0 p1 n i str none (some g) s below known fits =
        stops_at-Ends p0 p1 n g str (some g) s known known
          (omega (arith, fits, weight-pos (rank i)))
    greedy_stops-Ends p0 p1 n i str (some j) follow s (inside, lower) known fits =
        stops_at-Ends p0 p1 n j str follow s inside known
          (omega (arith, fits, weight-lt (rank j) (rank i) lower, weight-pos (rank j)))

    greedy_loop-Ends :
        (k p0 p1 body i n good : ℕ) (next follow : Option ℕ) (s : Captures)
        → NextBelow nodes rank i next
        → Known follow
        → (body < length nodes) × (rank body < rank i)
        → weight (rank i) + 2 * follow_weight rank follow ≤ d + 1
        → p1 < 65536
        → n ≤ 65536
        → 65537 ≤ k + n
        → Ends (
            greedy_loop types nodes text bol eol rounds rec k p0 p1 body
              (stop_of next follow)
              follow
              s
              good
              n)
    unfolding greedy_loop
    greedy_loop-Ends zero p0 p1 body i n good next follow s below known link fits packed few
          enough_rounds =
        absurd (omega (arith, few, enough_rounds))
    greedy_loop-Ends (suc k) p0 p1 body i n good next follow s below known link fits packed few
          enough_rounds =
        elim (Bool-cases ((n == 65535) || ltb n p1)) [
          | inr over ↦ rw over tt
          | inl more ↦ rw more (
              Ends-bind (rec s body good (stop_of next follow)) _
                (ends s body good (stop_of next follow) link.0
                  (stop_of-Known i next follow below known)
                  (omega (
                    arith,
                    fits,
                    stop_of-weight i next follow below,
                    weight-lt (rank body) (rank i) link.1,
                    weight-pos (rank i),
                  )))
                λ (t, hit) e. hit-Ends hit _ _ tt λ str.
                  Ends-bind
                    (greedy_stops types nodes text bol eol rounds rec p0 p1 (n + 1)
                      (stop_of next follow) follow t str)
                    _ (greedy_stops-Ends p0 p1 (n + 1) i str next follow t below known fits)
                    λ (u, stops) e'. elim (Bool-cases (stops || leb eol str)) [
                      | inl y ↦ rw y tt
                      | inr n' ↦ rw n' (
                          greedy_loop-Ends k p0 p1 body i (n + 1) str next follow u below known link
                            fits packed (ground (arith, more, packed))
                            (omega (arith, enough_rounds)))
                    ])
        ]

    LinkBelow-cases :
        {B : Type 0} (i : ℕ) (o : Option ℕ) (f : ℕ → Option B)
        → LinkBelow nodes rank i o
        → ((j : ℕ) → j < length nodes → rank j < rank i → Ends (f j))
        → Ends (o >>= f)
    LinkBelow-cases i none f w h = absurd w
    LinkBelow-cases i (some j) f (inside, lower) h = h j inside lower

    group_Ends :
        (node : RexNode) (s : Captures) (i str : ℕ) (follow : Option ℕ)
        → LinkBelow nodes rank i node.left
        → Known follow
        → depth rank i follow ≤ d + 1
        → Ends (match_expr types nodes text bol eol rounds rec node s str follow)
    unfolding match_expr
    group_Ends node s i str follow links known fits =
        LinkBelow-cases i node.left _ links λ l inside lower.
          let inner = λ (c : Captures).
            expr_loop-Ends rounds follow l str c inside known
              (omega (arith, fits, weight-lt (rank l) (rank i) lower, weight-pos (rank l)))
              (low l) in
          hit-Ends (capture_of types nodes text bol eol rounds rec node s) _ _
            (Ends-bind (expr_loop types nodes text bol eol rounds rec rounds follow l s str) _
              (inner s) λ (t, hit) e. hit-Ends hit _ _ tt λ cur. tt)
            (λ c.
              Ends-bind (expr_loop types nodes text bol eol rounds rec rounds follow l _ str) _
                (inner _) λ (t, hit) e. hit-Ends hit _ _ tt λ cur. tt)

    match_typed-Ends :
        (type : RexType) (node : RexNode) (s : Captures) (i str : ℕ) (follow : Option ℕ)
        → NextBelow nodes rank i node.next
        → LinksBelow nodes rank i type node
        → Known follow
        → depth rank i follow ≤ d + 1
        → Ends (match_typed types nodes text bol eol rounds rec type node s str follow)
    unfolding match_typed match_greedy match_or match_expr
    match_typed-Ends op_greedy node s i str follow below links known fits =
        Ends-bind node.right _ links.1 λ packed e.
          LinkBelow-cases i node.left _ links.0 λ body inside lower.
            Ends-bind
              (greedy_loop types nodes text bol eol rounds rec rounds (packed / 65536 % 65536)
                (packed % 65536) body (stop_of node.next follow) follow s str 0)
              _
              (greedy_loop-Ends rounds (packed / 65536 % 65536) (packed % 65536) body i 0 str
                node.next follow s below known (inside, lower) fits (mod-lt packed (omega arith))
                (omega arith) (omega (arith, long)))
              λ (t, good, n) e'. tt
    match_typed-Ends op_or node s i str follow below links known fits =
        LinkBelow-cases i node.left _ links.0 λ l inside lower.
          Ends-bind (branch_loop types nodes text bol eol rounds rec rounds l s str) _
            (branch_loop-Ends rounds l str s inside
              (omega (arith, fits, weight-lt (rank l) (rank i) lower, weight-pos (rank l))) (low l))
            λ (t, hit) e.
              hit-Ends hit _ _
                (LinkBelow-cases i node.right _ links.1 λ r inside' lower'.
                  branch_loop-Ends rounds r str t inside'
                    (omega (arith, fits, weight-lt (rank r) (rank i) lower', weight-pos (rank r)))
                    (low r))
                (λ asd. tt)
    match_typed-Ends op_expr node s i str follow below links known fits =
        group_Ends node s i str follow links known fits
    match_typed-Ends op_nocapexpr node s i str follow below links known fits =
        group_Ends node s i str follow links known fits
    match_typed-Ends op_wb node s i str follow below links known fits =
        Ends-bind node.left _ links λ l e. tt
    match_typed-Ends op_bol node s i str follow below links known fits = tt
    match_typed-Ends op_eol node s i str follow below links known fits = tt
    match_typed-Ends op_dot node s i str follow below links known fits = tt
    match_typed-Ends op_class node s i str follow below links known fits =
        LinkBelow-cases i node.left _ links λ l inside lower.
          Ends-bind (match_class types nodes text bol eol rounds rounds l (text str)) _
            (match_class-Ends rounds l (text str) inside (low l)) λ test e. tt
    match_typed-Ends op_nclass node s i str follow below links known fits =
        LinkBelow-cases i node.left _ links λ l inside lower.
          Ends-bind (match_class types nodes text bol eol rounds rounds l (text str)) _
            (match_class-Ends rounds l (text str) inside (low l)) λ test e. tt
    match_typed-Ends op_cclass node s i str follow below links known fits =
        Ends-bind node.left _ links λ l e. tt
    match_typed-Ends op_mb node s i str follow below links known fits =
        Ends-bind node.left _ links.0 λ cb e. Ends-bind node.right _ links.1 λ ce e'. tt
    match_typed-Ends op_range node s i str follow below links known fits = tt
    match_typed-Ends (rex_char c) node s i str follow below links known fits = tt

  pub match_node-EndsAt : (f : ℕ) → EndsAt (match_node types nodes text bol eol rounds f) f
  unfolding match_node match_step
  match_node-EndsAt zero s i str follow inside known fits =
      absurd (omega (arith, fits, weight-pos (rank i)))
  match_node-EndsAt (suc f) s i str follow inside known fits =
      Ends-bind (get_elem? nodes i) _ (get_elem?-Ends nodes i inside) λ node e.
        match_typed-Ends (match_node types nodes text bol eol rounds f) f (match_node-EndsAt f)
          node.node_type node s i str follow (ranked i node e).0 (ranked i node e).1 known
          (omega (arith, fits))
