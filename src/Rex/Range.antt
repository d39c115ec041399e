-- ===== src/Rex/Range.antt =====
-- `sqstd_rex_searchrange` on a text and on nodes whose links lead downwards.
use sqnim.Prelude.{
  ℕ, zero, suc, ◌+◌, ◌-◌, ◌≤◌, ◌<◌, ◌≡◌, refl, Option, none, some, List, length, get_elem?, arith,
  leb, Bool-cases, inl, inr,
}
use sqnim.Rex.Bounds.{Fits, Steps, RunFits}
use sqnim.Rex.Ends.{Ends, get_elem?-Ends, NextBelow, IsRanked, weight}
use sqnim.Rex.Groups.{match_node-IsSound}
use sqnim.Rex.Match.{RexMatch, Captures, Run, ◌>>=◌, match_node}
use sqnim.Rex.Search.{search_nodes, search_loop, search_range}
use sqnim.Rex.Total.{match_node-EndsAt}
use sqnim.Rex.{RexNode, CharTypes}

-- all matches fit the text
abbrev pub AllFit : ℕ → ℕ → (ℕ → RexMatch) → Type 0
AllFit bol eol matches = (i : ℕ) → Fits bol eol (matches i)

-- a search found nothing, or what it found lies in the text
abbrev pub InRange : ℕ → ℕ → Option (ℕ × ℕ) → Type 0
InRange bol eol none = Unit {0}
InRange bol eol (some (b, e)) = (bol ≤ b) × (b ≤ e) × (e ≤ eol)

-- a search ends, with captures and a result that fit
abbrev Done : ℕ → ℕ → Option (Captures × Option (ℕ × ℕ)) → Type 0
Done bol eol none = ⊥
Done bol eol (some (s, hit)) = AllFit bol eol s.matches × InRange bol eol hit

Done-result :
    (bol eol : ℕ) (r : Option (Captures × Option (ℕ × ℕ)))
    → Done bol eol r
    → (s : Captures) × (hit : Option (ℕ × ℕ)) × (r ≡ some (s, hit))
      × AllFit bol eol s.matches
      × InRange bol eol hit
Done-result bol eol none w = absurd w
Done-result bol eol (some (s, hit)) (fit, range) = (s, hit, refl, fit, range)

module _ (types : CharTypes) (nodes : List RexNode) (text : ℕ → ℕ) (rounds fuel : ℕ) (rank : ℕ → ℕ)
    (ranked : IsRanked nodes rank) (low : (i : ℕ) → rank i < rounds) (long : 65537 ≤ rounds)
    (deep : (i : ℕ) → weight (rank i) ≤ fuel) (bol eol : ℕ) where
  run_done :
      {B : Type 0} (P : Option B → Type 0) (s : Captures) (str : ℕ) (r : Run)
      (f : Captures × Option ℕ → Option B)
      → Ends r
      → RunFits bol eol s str r
      → ((t : Captures) → Steps bol eol s t → P (f (t, none)))
      → ((t : Captures) (x : ℕ) → Steps bol eol s t → str ≤ x → x ≤ eol → P (f (t, some x)))
      → P (r >>= f)
  run_done P s str none f e w a b = absurd e
  run_done P s str (some (t, none)) f e w a b = a t w
  run_done P s str (some (t, some x)) f e (w, lo, hi) a b = b t x w lo hi

  abbrev NodesDone : ℕ → Option (Captures × ℕ × Option ℕ) → Type 0
  NodesDone cur none = ⊥
  NodesDone cur (some (t, j, none)) = AllFit bol eol t.matches × (j < length nodes)
  NodesDone cur (some (t, j, some x)) = AllFit bol eol t.matches × (cur ≤ x) × (x ≤ eol)

  NodesDone-after :
      (cur x : ℕ) (r : Option (Captures × ℕ × Option ℕ)) → cur ≤ x → NodesDone x r → NodesDone cur r
  NodesDone-after cur x none h w = w
  NodesDone-after cur x (some (t, j, none)) h w = w
  NodesDone-after cur x (some (t, j, some y)) h (w, lo, hi) = (w, omega (arith, h, lo), hi)

  -- after a node has matched
  next_done :
      (i cur x : ℕ) (t : Captures) (next : Option ℕ) (f : ℕ → Option (Captures × ℕ × Option ℕ))
      → NextBelow nodes rank i next
      → AllFit bol eol t.matches × (cur ≤ x) × (x ≤ eol)
      → ((j : ℕ) → j < length nodes → rank j < rank i → NodesDone cur (f j))
      → NodesDone cur (elim next [ none ↦ some (t, i, some x) | some j ↦ f j ])
  next_done i cur x t none f w now h = now
  next_done i cur x t (some j) f (inside, lower) now h = h j inside lower

  node_done :
      (i cur : ℕ) (o : Option RexNode) (f : RexNode → Option (Captures × ℕ × Option ℕ))
      → Ends o
      → ((n : RexNode) → o ≡ some n → NodesDone cur (f n))
      → NodesDone cur (o >>= f)
  node_done i cur none f e h = absurd e
  node_done i cur (some n) f e h = h n refl

  search_nodes-NodesDone :
      (k i cur : ℕ) (s : Captures)
      → i < length nodes
      → rank i < k
      → AllFit bol eol s.matches
      → bol ≤ cur
      → cur ≤ eol
      → NodesDone cur (search_nodes types nodes text rounds fuel bol eol k i s cur)
  unfolding search_nodes
  search_nodes-NodesDone zero i cur s inside h fit lo hi = absurd (omega (arith, h))
  search_nodes-NodesDone (suc k) i cur s inside h fit lo hi =
      let cleared : Captures = record s { currsubexp = 0 } in
      run_done (NodesDone cur) cleared cur
        (match_node types nodes text bol eol rounds fuel cleared i cur none) _
        (match_node-EndsAt types nodes text bol eol rounds rank ranked low long fuel cleared i cur
          none inside tt (omega (arith, deep i)))
        (match_node-IsSound types nodes text bol eol rounds fuel cleared i cur none lo hi)
        (λ t w. (λ j. w.fits (λ q z. fit q) j (omega arith), inside))
        (λ t x w a b.
          let now : AllFit bol eol t.matches = λ j. w.fits (λ q z. fit q) j (omega arith) in
          node_done i cur (get_elem? nodes i) _ (get_elem?-Ends nodes i inside) λ n e.
            next_done i cur x t n.next _ (ranked i n e).0 (now, a, b)
              λ j inner lower. NodesDone-after cur x _ a (
                search_nodes-NodesDone k j x t inner (omega (arith, lower, h)) now
                  (omega (arith, lo, a)) b))

  loop-Done :
      (str : ℕ) (r : Option (Captures × ℕ × Option ℕ))
      (f : Captures × ℕ × Option ℕ → Option (Captures × Option (ℕ × ℕ)))
      → NodesDone str r
      → ((t : Captures) (j : ℕ)
          → AllFit bol eol t.matches
          → j < length nodes
          → Done bol eol (f (t, j, none)))
      → ((t : Captures) (j x : ℕ)
          → AllFit bol eol t.matches
          → str ≤ x
          → x ≤ eol
          → Done bol eol (f (t, j, some x)))
      → Done bol eol (r >>= f)
  loop-Done str none f w a b = absurd w
  loop-Done str (some (t, j, none)) f (w, inside) a b = a t j w inside
  loop-Done str (some (t, j, some x)) f (w, lo, hi) a b = b t j x w lo hi

  search_loop-Done :
      (more i str : ℕ) (s : Captures)
      → i < length nodes
      → AllFit bol eol s.matches
      → bol ≤ str
      → more + str ≤ eol
      → Done bol eol (search_loop types nodes text rounds fuel bol eol more i s str)
  unfolding search_loop
  search_loop-Done zero i str s inside fit lo hi = (fit, tt)
  search_loop-Done (suc more) i str s inside fit lo hi =
      loop-Done str (search_nodes types nodes text rounds fuel bol eol rounds i s str) _
        (search_nodes-NodesDone rounds i str s inside (low i) fit lo (omega (arith, hi)))
        (λ t j now inner.
          search_loop-Done more j (str + 1) t inner now (omega (arith, lo)) (omega (arith, hi)))
        (λ t j x now a b. (now, (lo, a, b)))

-- On nodes whose links are there and lead to lower ranks, a search ends, whatever the text is. Each of
-- its captures is empty or lies in the text, if those before the search did, and so does what it found.
-- A rank below `rounds` bounds the loops, but for those of a repetition, which take 65,537 rounds at
-- most; the weight of a rank bounds the depth.
pub search_range_lem :
    (types : CharTypes) (nodes : List RexNode) (text : ℕ → ℕ) (rounds fuel : ℕ) (rank : ℕ → ℕ)
    (bol eol : ℕ) (matches : ℕ → RexMatch)
    → IsRanked nodes rank
    → ((i : ℕ) → rank i < rounds)
    → 65537 ≤ rounds
    → ((i : ℕ) → weight (rank i) ≤ fuel)
    → 0 < length nodes
    → AllFit bol eol matches
    → (s : Captures) × (hit : Option (ℕ × ℕ)) × (search_range types nodes text rounds fuel bol eol
          matches
        ≡ some (s, hit))
      × AllFit bol eol s.matches
      × InRange bol eol hit
unfolding search_range
search_range_lem types nodes text rounds fuel rank bol eol matches ranked low long deep root fit =
    let start : Captures = record { matches = matches; currsubexp = 0 } in
    Done-result bol eol _ (elim (Bool-cases (leb bol eol)) [
      | inl inside ↦
          search_loop-Done types nodes text rounds fuel rank ranked low long deep bol eol
            (eol - bol) 0 bol start root fit (omega arith) (ground (arith, inside))
      | inr outside ↦
          let nothing : (eol - bol) ≡ 0 = ground (arith, outside) in
          rw (nothing, search_loop) (fit, tt)
    ])
