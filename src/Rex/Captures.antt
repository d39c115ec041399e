-- ===== src/Rex/Captures.antt =====
-- Each part of `sqstd_rex_matchnode` keeps the text's bounds and the captures.
use sqnim.Prelude.{
  ℕ, zero, suc, ◌+◌, ◌/◌, ◌%◌, ◌≤◌, inl, inr, Bool, ◌||◌, ◌&&◌, Option, none, some, List, get_elem?,
  ltb, leb, ◌==◌, if◌then◌else◌, arith, Bool-cases,
}
use sqnim.Rex.Bounds.{Steps, Steps-refl, Steps-trans, RunFits, run_cases, option_cases}
use sqnim.Rex.Match.{
  Captures, Run, ◌>>=◌, enough, greedy_stops, next_stop, is_greedy, packed_of, greedy_loop,
  match_greedy,
}
use sqnim.Rex.{RexNode, CharTypes}

module _ (types : CharTypes) (nodes : List RexNode) (text : ℕ → ℕ) (bol eol rounds : ℕ) where
  abbrev pub IsSound : (Captures → ℕ → ℕ → Option ℕ → Run) → Type 0
  IsSound rec =
      (s : Captures) (i str : ℕ) (follow : Option ℕ)
      → bol ≤ str
      → str ≤ eol
      → RunFits bol eol s str (rec s i str follow)

  module _ (rec : Captures → ℕ → ℕ → Option ℕ → Run) (sound : IsSound rec) where
    -- what a test whether a repetition stops leaves
    abbrev StopFits : Captures → Option (Captures × Bool) → Type 0
    StopFits s none = Unit {0}
    StopFits s (some (t, b)) = Steps bol eol s t

    greedy_stops-StopFits :
        (p0 p1 n : ℕ) (stop follow : Option ℕ) (s : Captures) (str : ℕ)
        → bol ≤ str
        → str ≤ eol
        → StopFits s (greedy_stops types nodes text bol eol rounds rec p0 p1 n stop follow s str)
    unfolding greedy_stops
    greedy_stops-StopFits p0 p1 n none follow s str lo hi = Steps-refl bol eol s
    greedy_stops-StopFits p0 p1 n (some g) follow s str lo hi =
        option_cases (StopFits s) (get_elem? nodes g) _ tt λ stop e.
          elim (Bool-cases (is_greedy stop.node_type && (packed_of stop / 65536 % 65536 == 0))) [
            | inl y ↦ rw y (Steps-refl bol eol s)
            | inr n' ↦ rw n' (
                option_cases (StopFits s) (next_stop types nodes text bol eol rounds stop follow) _
                  tt
                  λ gnext e''.
                    run_cases bol eol (StopFits s) s str (rec s g str gnext) _
                      (sound s g str gnext lo hi) tt (λ t w. w) (λ t x w a b. w))
          ]

    abbrev LoopFits : Captures → ℕ → Option (Captures × ℕ × ℕ) → Type 0
    LoopFits s str none = Unit {0}
    LoopFits s str (some (t, good, n)) = Steps bol eol s t × (str ≤ good) × (good ≤ eol)

    LoopFits-after :
        (s t : Captures) (str cur : ℕ) (r : Option (Captures × ℕ × ℕ))
        → Steps bol eol s t
        → str ≤ cur
        → LoopFits t cur r
        → LoopFits s str r
    LoopFits-after s t str cur none a h w = tt
    LoopFits-after s t str cur (some (u, good, n)) a h (w, lo, hi) =
        (Steps-trans bol eol s t u a w, omega (arith, h, lo), hi)

    stop_cases :
        (s t : Captures) (str : ℕ) (r : Option (Captures × Bool))
        (f : Captures × Bool → Option (Captures × ℕ × ℕ))
        → Steps bol eol s t
        → StopFits t r
        → ((u : Captures) (b : Bool) → Steps bol eol s u → LoopFits s str (f (u, b)))
        → LoopFits s str (r >>= f)
    stop_cases s t str none f w v h = tt
    stop_cases s t str (some (u, b)) f w v h = h u b (Steps-trans bol eol s t u w v)

    greedy_loop-LoopFits :
        (k p0 p1 body : ℕ) (stop follow : Option ℕ) (s : Captures) (good n : ℕ)
        → bol ≤ good
        → good ≤ eol
        → LoopFits s good
            (greedy_loop types nodes text bol eol rounds rec k p0 p1 body stop follow s good n)
    unfolding greedy_loop
    greedy_loop-LoopFits zero p0 p1 body stop follow s good n lo hi = tt
    greedy_loop-LoopFits (suc k) p0 p1 body stop follow s good n lo hi =
        elim (Bool-cases ((n == 65535) || ltb n p1)) [
          | inr over ↦ rw over (Steps-refl bol eol s, omega arith, hi)
          | inl more ↦ rw more (
              run_cases bol eol (LoopFits s good) s good (rec s body good stop) _
                (sound s body good stop lo hi) tt (λ t w. (w, omega arith, hi))
                (λ t str w a b.
                  stop_cases s t good
                    (greedy_stops types nodes text bol eol rounds rec p0 p1 (n + 1) stop follow t
                      str)
                    _ w
                    (greedy_stops-StopFits p0 p1 (n + 1) stop follow t str (omega (arith, lo, a)) b)
                    (λ u stops v. elim (Bool-cases (stops || leb eol str)) [
                      | inl y ↦ rw y (v, a, b)
                      | inr n' ↦ rw n' (
                          LoopFits-after s u good str _ v a (
                            greedy_loop-LoopFits k p0 p1 body stop follow u str (n + 1)
                              (omega (arith, lo, a)) b))
                    ])))
        ]

    loop_cases :
        (s : Captures) (str : ℕ) (r : Option (Captures × ℕ × ℕ)) (p0 p1 : ℕ)
        → LoopFits s str r
        → RunFits bol eol s str
            (r >>= λ (t, good, n). some (t, if enough p0 p1 n then some good else none))
    loop_cases s str none p0 p1 w = tt
    loop_cases s str (some (t, good, n)) p0 p1 (w, lo, hi) = elim (Bool-cases (enough p0 p1 n)) [
      | inl y ↦ rw y (w, lo, hi)
      | inr n' ↦ rw n' w
    ]

    pub match_greedy-RunFits :
        (node : RexNode) (s : Captures) (str : ℕ) (follow : Option ℕ)
        → bol ≤ str
        → str ≤ eol
        → RunFits bol eol s str (match_greedy types nodes text bol eol rounds rec node s str follow)
    unfolding match_greedy
    match_greedy-RunFits node s str follow lo hi =
        option_cases (RunFits bol eol s str) node.right _ tt λ packed e.
          option_cases (RunFits bol eol s str) node.left _ tt λ body e'.
            loop_cases s str _ (packed / 65536 % 65536) (packed % 65536) (
              greedy_loop-LoopFits rounds (packed / 65536 % 65536) (packed % 65536) body
                (elim node.next [ none ↦ follow | some n ↦ some n ]) follow s str 0 lo hi)
