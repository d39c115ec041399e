-- ===== src/Tests/Expressions.antt =====
-- Regular expressions.
use sqnim.Prelude.{
  ℕ, zero, suc, ◌≤◌, ◌<◌, ◌≡◌, refl, subst, ◌&&◌, Option, none, some, some-injective, List, [], ◌∷◌,
  ltb, leb, ◌==◌, arith,
}
use sqnim.Rex.Compile.{rex_compile}
use sqnim.Rex.Ends.{IsRanked, NextBelow, LinksBelow, weight}
use sqnim.Rex.Match.{RexMatch, Captures}
use sqnim.Rex.Node.{parsed}
use sqnim.Rex.Range.{AllFit, InRange, search_range_lem}
use sqnim.Rex.Room.{HasRoom, last_state, rex_compile-HasRoom}
use sqnim.Rex.Search.{search_range}
use sqnim.Rex.{rex_char, op_expr, op_greedy, RexNode, CharTypes}

abbrev ascii : CharTypes
ascii = record {
  is_print = λ c. leb 32 c && ltb c 127;
  is_alpha = λ c. leb b'a' c && leb c b'z';
  is_alnum = λ c. leb b'a' c && leb c b'z';
  is_space = λ c. c == 32;
  is_digit = λ c. leb b'0' c && leb c b'9';
  is_xdigit = λ c. leb b'0' c && leb c b'9';
  is_cntrl = λ c. ltb c 32;
  is_punct = λ c. c == b'.';
  is_lower = λ c. leb b'a' c && leb c b'z';
  is_upper = λ c. leb b'A' c && leb c b'Z';
}

-- the memory that holds a text and its end
abbrev memory : List ℕ → ℕ → ℕ
memory [] i = 0
memory (c ∷ l) zero = c
memory (c ∷ l) (suc i) = memory l i

-- `a+`
abbrev some_as : ℕ → ℕ
some_as = memory (b'a' ∷ b'+' ∷ [])

abbrev nodes_as : List RexNode
nodes_as =
    record { node_type = op_expr; left = some 2; right = some 0; next = none }
    ∷ record { node_type = rex_char b'a'; left = none; right = none; next = none }
    ∷ record { node_type = op_greedy; left = some 1; right = some 131071; next = none }
    ∷ []

-- `xaa`
abbrev text_as : ℕ → ℕ
text_as = memory (b'x' ∷ b'a' ∷ b'a' ∷ [])

abbrev unset : ℕ → RexMatch
unset i = record { begin = none; len = 0 }

abbrev rank_as : ℕ → ℕ
rank_as zero = 2
rank_as (suc zero) = 0
rank_as (suc (suc i)) = 1

nodes_as-IsRanked : IsRanked nodes_as rank_as
nodes_as-IsRanked zero node h =
    subst (λ n. NextBelow nodes_as rank_as 0 n.next × LinksBelow nodes_as rank_as 0 n.node_type n)
      (some-injective _ node h) (tt, (omega arith, omega arith))
nodes_as-IsRanked (suc zero) node h =
    subst (λ n. NextBelow nodes_as rank_as 1 n.next × LinksBelow nodes_as rank_as 1 n.node_type n)
      (some-injective _ node h) (tt, tt)
nodes_as-IsRanked (suc (suc zero)) node h =
    subst (λ n. NextBelow nodes_as rank_as 2 n.next × LinksBelow nodes_as rank_as 2 n.node_type n)
      (some-injective _ node h) (tt, ((omega arith, omega arith), tt))
nodes_as-IsRanked (suc (suc (suc i))) node h = absurd cc

low_as : (i : ℕ) → rank_as i < 65537
low_as zero = omega arith
low_as (suc zero) = omega arith
low_as (suc (suc i)) = omega arith

deep_as : (i : ℕ) → weight (rank_as i) ≤ 16
deep_as zero = omega arith
deep_as (suc zero) = omega arith
deep_as (suc (suc i)) = omega arith

search_range_lem_example :
    (s : Captures) × (hit : Option (ℕ × ℕ)) × (search_range ascii nodes_as text_as 65537 16 0 3
        unset
      ≡ some (s, hit))
    × AllFit 0 3 s.matches
    × InRange 0 3 hit
search_range_lem_example =
    search_range_lem ascii nodes_as text_as 65537 16 rank_as 0 3 unset nodes_as-IsRanked low_as
      (omega arith) deep_as (omega arith) (λ i. refl)

rex_compile-HasRoom_example : HasRoom (last_state (rex_compile ascii some_as 20 2))
rex_compile-HasRoom_example = rex_compile-HasRoom ascii some_as 20 2 (omega arith)

compiles_as :
    rex_compile ascii some_as 20 2
    ≡ parsed 0 (record { p = 2; nodes = nodes_as; nallocated = 4; nsubexpr = 1 })
unfolding rex_compile
compiles_as = refl
