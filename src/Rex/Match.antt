-- ===== src/Rex/Match.antt =====
-- `sqstd_rex_matchclass` and `sqstd_rex_matchnode` (sqstdrex.cpp). The text is the memory from the
-- start on, with the positions `bol` and `eol` where it begins and ends. `NULL` is `none`. Two numbers
-- bound a run, `rounds` for a loop and the fuel of `match_node` for its depth. A run that needs more,
-- or reads a link that is not set, is `none`.
use sqnim.Prelude.{
  ℕ, zero, suc, ◌+◌, ◌-◌, ◌/◌, ◌%◌, Bool, true, false, not, ◌||◌, ◌&&◌, Option, none, some, List,
  get_elem?, ltb, leb, ◌==◌, if◌then◌else◌,
}
use sqnim.Rex.{
  RexType, rex_char, op_greedy, op_or, op_expr, op_nocapexpr, op_dot, op_class, op_cclass,
  op_nclass, op_range, op_eol, op_bol, op_wb, op_mb, rex_code, char_order, RexNode, CharTypes,
  match_cclass,
}

-- `SQRexMatch`
pub record RexMatch : Type 0 where
  pub begin : Option ℕ
  pub len : ℕ

-- what a match changes
pub record Captures : Type 0 where
  pub matches : ℕ → RexMatch
  pub currsubexp : ℕ

unfoldable pub set_match : Captures → ℕ → RexMatch → Captures
set_match s i m = record s { matches = λ j. if j == i then m else s.matches j }

abbrev pub Run : Type 0
Run = Option (Captures × Option ℕ)

infixl 5 ◌>>=◌
abbrev pub ◌>>=◌ {ℓ κ} : {A : Type ℓ} {B : Type κ} → Option A → (A → Option B) → Option B
none >>= next = none
(some a) >>= next = next a

unfoldable pub is_greedy : RexType → Bool
is_greedy op_greedy = true
is_greedy _ = false

-- `cur - begin`, where `NULL` is the position 0
unfoldable pub length_to : Option ℕ → ℕ → ℕ
length_to none cur = cur
length_to (some b) cur = cur - b

-- the numbers of a repetition in one
unfoldable pub packed_of : RexNode → ℕ
packed_of node = elim node.right [ none ↦ 0 | some r ↦ r ]

-- a number of matches that a repetition of `p0` to `p1` times takes
unfoldable pub enough : ℕ → ℕ → ℕ → Bool
enough p0 p1 n = ((p0 == p1) && (p0 == n)) || (leb p0 n && (p1 == 65535)) || (leb p0 n && leb n p1)

module _ (types : CharTypes) (nodes : List RexNode) (text : ℕ → ℕ) (bol eol rounds : ℕ) where
  -- one test of the loop of `sqstd_rex_matchclass`
  unfoldable pub in_class_node : RexNode → ℕ → Bool
  unfolding char_order rex_code match_cclass
  in_class_node node c = elim node.node_type [
    | op_range ↦ elim node.left [
      | none ↦ false
      | some l ↦ elim node.right [
        | none ↦ false
        | some r ↦ leb (char_order l) (char_order c) && leb (char_order c) (char_order r)
      ]
    ]
    | op_cclass ↦ elim node.left [ none ↦ false | some l ↦ match_cclass types l c ]
    | t ↦ c == rex_code t
  ]

  -- `sqstd_rex_matchclass`
  unfoldable pub match_class : ℕ → ℕ → ℕ → Option Bool
  unfolding in_class_node
  match_class zero i c = none
  match_class (suc f) i c = do
    node ← get_elem? nodes i
    if in_class_node node c
        then some true
        else elim node.next [ none ↦ some false | some n ↦ match_class f n c ]

  -- the loop of `OP_MB`, with `more` characters from `str` to the end of the text
  unfoldable pub match_balanced : ℕ → ℕ → ℕ → ℕ → ℕ → Option ℕ
  match_balanced zero cb ce str cont = none
  match_balanced (suc more) cb ce str cont =
      let c = text (str + 1) in
      let closed = match_balanced more cb ce (str + 1) (cont - 1) in
      let opened = match_balanced more cb ce (str + 1) (cont + 1) in
      let other = match_balanced more cb ce (str + 1) cont in
      if leb eol (str + 1)
      then none
      else if c == ce
      then (if cont == 1 then some (str + 2) else closed)
      else if c == cb
      then opened
      else other

  -- `OP_WB`
  unfoldable pub match_boundary : ℕ → ℕ → Option ℕ
  match_boundary left str =
      let space = types.is_space (text str) in
      let after = types.is_space (text (str + 1)) in
      let boundary =
        ((str == bol) && not space)
        || ((str == eol) && not (types.is_space (text (str - 1))))
        || (not space && after)
        || (space && not after) in
      if boundary
      then (if left == b'b' then some str else none)
      else if left == b'b'
      then none
      else some str

  -- a character that a test accepts
  unfoldable pub match_one : Bool → ℕ → Option ℕ
  match_one test str = if str == eol then none else if test then some (str + 1) else none

  -- `sqstd_rex_matchnode` inside itself: the captures, the node, the position, and the node that follows
  abbrev pub Matcher : Type 0
  Matcher = Captures → ℕ → ℕ → Option ℕ → Run

  -- the node that follows the one after a repetition
  unfoldable pub next_stop : RexNode → Option ℕ → Option (Option ℕ)
  next_stop stop follow = elim stop.next [
    | some n ↦ some (some n)
    | none ↦ elim follow [
      | none ↦ some none
      | some i ↦ get_elem? nodes i >>= λ node. some node.next
    ]
  ]

  module _ (rec : Matcher) where
    -- whether the repetition stops as the next node, `stop`, matches from `str` on
    unfoldable pub greedy_stops :
        ℕ → ℕ → ℕ → Option ℕ → Option ℕ → Captures → ℕ → Option (Captures × Bool)
    unfolding is_greedy packed_of enough next_stop
    greedy_stops p0 p1 n none follow s str = some (s, false)
    greedy_stops p0 p1 n (some g) follow s str = do
      stop ← get_elem? nodes g
      if is_greedy stop.node_type && (packed_of stop / 65536 % 65536 == 0)
          then some (s, false)
          else (do
            gnext ← next_stop stop follow
            (t, hit) ← rec s g str gnext
            elim hit [ none ↦ some (t, false) | some x ↦ some (t, enough p0 p1 n) ])

    -- the loop of `OP_GREEDY`, with the last good position and the number of matches
    unfoldable pub greedy_loop :
        ℕ → ℕ → ℕ → ℕ → Option ℕ → Option ℕ → Captures → ℕ → ℕ → Option (Captures × ℕ × ℕ)
    unfolding greedy_stops
    greedy_loop zero p0 p1 body stop follow s good n = none
    greedy_loop (suc k) p0 p1 body stop follow s good n =
        if (n == 65535) || ltb n p1
        then (do
          (t, hit) ← rec s body good stop
          elim hit [
            | none ↦ some (t, good, n)
            | some str ↦ (do
              (u, stops) ← greedy_stops p0 p1 (n + 1) stop follow t str
              if stops || leb eol str
                  then some (u, str, n + 1)
                  else greedy_loop k p0 p1 body stop follow u str (n + 1))
          ])
        else some (s, good, n)

    unfoldable pub match_greedy : RexNode → Captures → ℕ → Option ℕ → Run
    unfolding greedy_loop enough
    match_greedy node s str follow = do
      packed ← node.right
      body ← node.left
      let p0 = packed / 65536 % 65536
      let p1 = packed % 65536
      (t, good, n) ←
          greedy_loop rounds p0 p1 body (elim node.next [ none ↦ follow | some n ↦ some n ]) follow
            s str 0
      some (t, if enough p0 p1 n then some good else none)

    -- a loop of `OP_OR`, from the node `i` on
    unfoldable pub branch_loop : ℕ → ℕ → Captures → ℕ → Run
    branch_loop zero i s str = none
    branch_loop (suc k) i s str = do
      (t, hit) ← rec s i str none
      elim hit [
        | none ↦ some (t, none)
        | some asd ↦ (do
          temp ← get_elem? nodes i
          elim temp.next [ none ↦ some (t, some asd) | some j ↦ branch_loop k j t asd ])
      ]

    unfoldable pub match_or : RexNode → Captures → ℕ → Run
    unfolding branch_loop
    match_or node s str = do
      l ← node.left
      (t, hit) ← branch_loop rounds l s str
      elim hit [
        | some asd ↦ some (t, some asd)
        | none ↦ (do r ← node.right; branch_loop rounds r t str)
      ]

    -- the loop of `OP_EXPR`, from the node `i` on
    unfoldable pub expr_loop : ℕ → Option ℕ → ℕ → Captures → ℕ → Run
    expr_loop zero follow i s cur = none
    expr_loop (suc k) follow i s cur = do
      n ← get_elem? nodes i
      (t, hit) ← rec s i cur (elim n.next [ none ↦ follow | some j ↦ some j ])
      elim hit [
        | none ↦ some (t, none)
        | some x ↦ elim n.next [ none ↦ some (t, some x) | some j ↦ expr_loop k follow j t x ]
      ]

    -- `capture` if the group is the one that is looked for
    unfoldable pub capture_of : RexNode → Captures → Option ℕ
    capture_of node s = elim node.node_type [
      | op_expr ↦ elim node.right [
        | none ↦ none
        | some r ↦ if r == s.currsubexp then some r else none
      ]
      | _ ↦ none
    ]

    unfoldable pub match_expr : RexNode → Captures → ℕ → Option ℕ → Run
    unfolding expr_loop capture_of set_match length_to
    match_expr node s str follow = do
      l ← node.left
      elim (capture_of node s) [
        | none ↦ (do
          (t, hit) ← expr_loop rounds follow l s str
          elim hit [
            | none ↦ some (t, none)
            | some cur ↦ some (record t { currsubexp = s.currsubexp }, some cur)
          ])
        | some c ↦ (do
          let opened = set_match s c (record { begin = some str; len = (s.matches c).len })
          (t, hit) ← expr_loop rounds follow l (record opened { currsubexp = s.currsubexp + 1 }) str
          elim hit [
            | none ↦ some (set_match t c (record { begin = none; len = 0 }), none)
            | some cur ↦ some (
              set_match (record t { currsubexp = s.currsubexp + 1 }) c
                  (record { begin = (t.matches c).begin; len = length_to (t.matches c).begin cur }),
              some cur,
            )
          ])
      ]

    -- the cases of `sqstd_rex_matchnode`, by the type of the node
    unfoldable pub match_typed : RexType → RexNode → Captures → ℕ → Option ℕ → Run
    unfolding match_greedy match_or match_expr match_boundary match_one match_class match_cclass
        match_balanced rex_code
    match_typed op_greedy node s str follow = match_greedy node s str follow
    match_typed op_or node s str follow = match_or node s str
    match_typed op_expr node s str follow = match_expr node s str follow
    match_typed op_nocapexpr node s str follow = match_expr node s str follow
    match_typed op_wb node s str follow = do l ← node.left; some (s, match_boundary l str)
    match_typed op_bol node s str follow = some (s, if str == bol then some str else none)
    match_typed op_eol node s str follow = some (s, if str == eol then some str else none)
    match_typed op_dot node s str follow = some (s, match_one true str)
    match_typed op_class node s str follow = do
      l ← node.left
      test ← match_class rounds l (text str)
      some (s, match_one test str)
    match_typed op_nclass node s str follow = do
      l ← node.left
      test ← match_class rounds l (text str)
      some (s, match_one (not test) str)
    match_typed op_cclass node s str follow = do
      l ← node.left
      some (s, match_one (match_cclass types l (text str)) str)
    match_typed op_mb node s str follow = do
      cb ← node.left
      ce ← node.right
      some (s, if text str == cb then match_balanced (eol - str) cb ce str 1 else none)
    match_typed op_range node s str follow = some (s, match_one (text str == rex_code op_range) str)
    match_typed (rex_char c) node s str follow = some (s, match_one (text str == c) str)

    unfoldable pub match_step : Matcher
    unfolding match_typed
    match_step s i str follow = do
      node ← get_elem? nodes i
      match_typed node.node_type node s str follow

  -- `sqstd_rex_matchnode`
  unfoldable pub match_node : ℕ → Matcher
  unfolding match_step
  match_node zero s i str follow = none
  match_node (suc f) s i str follow = match_step (match_node f) s i str follow
