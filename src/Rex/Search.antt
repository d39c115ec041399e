-- ===== src/Rex/Search.antt =====
-- `sqstd_rex_match` and `sqstd_rex_searchrange` (sqstdrex.cpp), and `_regexp_capture`
-- (sqstdstring.cpp). The matches are those of the last run, which no function clears.
use sqnim.Prelude.{
  ℕ, zero, suc, ◌+◌, ◌-◌, Bool, false, Option, none, some, List, [], ◌∷◌, get_elem?, ltb, ◌==◌,
  if◌then◌else◌,
}
use sqnim.Rex.Match.{RexMatch, Captures, match_node, ◌>>=◌}
use sqnim.Rex.{RexNode, CharTypes}

module _ (types : CharTypes) (nodes : List RexNode) (text : ℕ → ℕ) (rounds fuel : ℕ) where
  unfoldable pub rex_match : (ℕ → RexMatch) → ℕ → Option (Captures × Bool)
  unfolding match_node
  rex_match matches eol = do
    (s, hit) ←
        match_node types nodes text 0 eol rounds fuel (record { matches = matches; currsubexp = 0 })
          0 0 none
    some (s, elim hit [ none ↦ false | some r ↦ r == eol ])

  module _ (bol eol : ℕ) where
    -- the inner loop: the nodes from `node` on, each with `_currsubexp` cleared, to the node that does
    -- not match or to the end
    unfoldable pub search_nodes : ℕ → ℕ → Captures → ℕ → Option (Captures × ℕ × Option ℕ)
    unfolding match_node
    search_nodes zero node s cur = none
    search_nodes (suc k) node s cur = do
      (t, hit) ←
          match_node types nodes text bol eol rounds fuel (record s { currsubexp = 0 }) node cur
            none
      elim hit [
        | none ↦ some (t, node, none)
        | some x ↦ (do
          n ← get_elem? nodes node
          elim n.next [ none ↦ some (t, node, some x) | some j ↦ search_nodes k j t x ])
      ]

    -- the outer loop, with `more` positions from `str` to the end; the result is where the match
    -- begins and ends
    unfoldable pub search_loop : ℕ → ℕ → Captures → ℕ → Option (Captures × Option (ℕ × ℕ))
    unfolding search_nodes
    search_loop zero node s str = some (s, none)
    search_loop (suc more) node s str = do
      (t, failing, hit) ← search_nodes rounds node s str
      elim hit [
        | some cur ↦ some (t, some (str, cur))
        | none ↦ search_loop more failing t (str + 1)
      ]

    unfoldable pub search_range : (ℕ → RexMatch) → Option (Captures × Option (ℕ × ℕ))
    unfolding search_loop
    search_range matches =
        search_loop (eol - bol) 0 (record { matches = matches; currsubexp = 0 }) bol

-- the table that `_addrexmatch` makes of a match, as the positions where it begins and ends
unfoldable pub capture_range : RexMatch → ℕ × ℕ
capture_range m = elim m.begin [
  | none ↦ (0, 0)
  | some b ↦ if ltb 0 m.len then (b, b + m.len) else (0, 0)
]

-- the array that `_regexp_capture` makes of the matches from `i` on
unfoldable pub capture_ranges : ℕ → ℕ → (ℕ → RexMatch) → List (ℕ × ℕ)
unfolding capture_range
capture_ranges zero i matches = []
capture_ranges (suc n) i matches = capture_range (matches i) ∷ capture_ranges n (i + 1) matches
