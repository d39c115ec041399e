-- ===== src/Rex/Ends.antt =====
-- Nodes whose links lead downwards, and what a match needs to end on them.
use sqnim.Prelude.{
  ℕ, zero, suc, ◌+◌, ◌*◌, ◌≤◌, ◌<◌, ◌≡◌, refl, Option, none, some, List, [], ◌∷◌, length, get_elem?,
  arith,
}
use sqnim.Rex.Match.{◌>>=◌}
use sqnim.Rex.{
  RexType, rex_char, op_greedy, op_or, op_expr, op_nocapexpr, op_dot, op_class, op_cclass,
  op_nclass, op_range, op_eol, op_bol, op_wb, op_mb, RexNode,
}

-- a run that ends
abbrev pub Ends : {A : Type 0} → Option A → Type 0
Ends none = ⊥
Ends (some a) = Unit {0}

pub Ends-bind :
    {A B : Type 0} (o : Option A) (f : A → Option B)
    → Ends o
    → ((a : A) → o ≡ some a → Ends (f a))
    → Ends (o >>= f)
Ends-bind none f e h = absurd e
Ends-bind (some a) f e h = h a refl

pub hit-Ends :
    {A B : Type 0} (hit : Option A) (missed : Option B) (f : A → Option B)
    → Ends missed
    → ((a : A) → Ends (f a))
    → Ends (elim hit [ none ↦ missed | some a ↦ f a ])
hit-Ends none missed f m h = m
hit-Ends (some a) missed f m h = h a

pub get_elem?-Ends : {A : Type 0} (l : List A) (i : ℕ) → i < length l → Ends (get_elem? l i)
get_elem?-Ends [] i h = absurd (omega (arith, h))
get_elem?-Ends (x ∷ l) zero h = tt
get_elem?-Ends (x ∷ l) (suc i) h = get_elem?-Ends l i (omega (arith, h))

module _ (nodes : List RexNode) (rank : ℕ → ℕ) where
  -- a link from the node `i`: none, or one to a node of a lower rank
  abbrev pub NextBelow : ℕ → Option ℕ → Type 0
  NextBelow i none = Unit {0}
  NextBelow i (some j) = (j < length nodes) × (rank j < rank i)

  -- a link that is there
  abbrev pub LinkBelow : ℕ → Option ℕ → Type 0
  LinkBelow i none = ⊥
  LinkBelow i (some j) = (j < length nodes) × (rank j < rank i)

  -- the links that the type of a node asks for
  abbrev pub LinksBelow : ℕ → RexType → RexNode → Type 0
  LinksBelow i op_greedy node = LinkBelow i node.left × Ends node.right
  LinksBelow i op_or node = LinkBelow i node.left × LinkBelow i node.right
  LinksBelow i op_expr node = LinkBelow i node.left
  LinksBelow i op_nocapexpr node = LinkBelow i node.left
  LinksBelow i op_class node = LinkBelow i node.left
  LinksBelow i op_nclass node = LinkBelow i node.left
  LinksBelow i op_cclass node = Ends node.left
  LinksBelow i op_wb node = Ends node.left
  LinksBelow i op_mb node = Ends node.left × Ends node.right
  LinksBelow i op_dot node = Unit {0}
  LinksBelow i op_eol node = Unit {0}
  LinksBelow i op_bol node = Unit {0}
  LinksBelow i op_range node = Unit {0}
  LinksBelow i (rex_char c) node = Unit {0}

  -- each node has these links, and the one to the next node leads downwards too
  abbrev pub IsRanked : Type 0
  IsRanked =
      (i : ℕ) (node : RexNode)
      → get_elem? nodes i ≡ some node
      → NextBelow i node.next × LinksBelow i node.node_type node

-- the weight of a rank, and of the node that follows
abbrev pub weight : ℕ → ℕ
weight zero = 1
weight (suc r) = 4 * weight r

pub weight-pos : (r : ℕ) → 0 < weight r
weight-pos zero = omega arith
weight-pos (suc r) = omega (arith, weight-pos r)

pub weight-lt : (a b : ℕ) → a < b → 4 * weight a ≤ weight b
weight-lt a zero h = absurd (omega (arith, h))
weight-lt zero (suc b) h = omega (arith, weight-pos b)
weight-lt (suc a) (suc b) h = omega (arith, weight-lt a b (omega (arith, h)))

abbrev pub follow_weight : (ℕ → ℕ) → Option ℕ → ℕ
follow_weight rank none = 0
follow_weight rank (some j) = weight (rank j)

-- how deep a match of a node gets
abbrev pub depth : (ℕ → ℕ) → ℕ → Option ℕ → ℕ
depth rank i follow = weight (rank i) + 2 * follow_weight rank follow
