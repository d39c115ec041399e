-- ===== src/Table/Room.antt =====
-- A free node that is put into a chain, behind a node or in its place.
use sqnim.Prelude.{
  ℕ, suc, ◌+◌, ◌≤◌, ◌<◌, ◌≡◌, ◌≢◌, refl, true, false, none, some, List, [], ◌∷◌, arith, length,
  ◌==◌, if◌then◌else◌,
}
use sqnim.Table.{Node, chain_node, move_node}
use sqnim.Table.Chain.{mem, Linked, no_return, chain_cases, first_mem}

abbrev pub insert_after : ℕ → ℕ → List ℕ → List ℕ
insert_after mp n [] = []
insert_after mp n (x ∷ l) = if x == mp then x ∷ n ∷ l else x ∷ insert_after mp n l

abbrev pub replace_first : ℕ → ℕ → List ℕ → List ℕ
replace_first mp n [] = []
replace_first mp n (x ∷ l) = if x == mp then n ∷ l else x ∷ replace_first mp n l

abbrev pub rest : List ℕ → List ℕ
rest [] = []
rest (x ∷ l) = l

length-rest : (l : List ℕ) → length (rest l) ≤ length l
length-rest [] = omega arith
length-rest (x ∷ l) = omega arith

insert_after_out : (mp n : ℕ) (l : List ℕ) → mem mp l ≡ false → insert_after mp n l ≡ l
insert_after_out mp n [] h = refl
insert_after_out mp n (x ∷ l) h = ground (arith, insert_after_out mp n l)

length-insert_after : (mp n : ℕ) (l : List ℕ) → length (insert_after mp n l) ≤ suc (length l)
length-insert_after mp n [] = omega arith
length-insert_after mp n (x ∷ l) = ground (arith, length-insert_after mp n l)

pub mem-insert_after :
    (mp n x : ℕ) (l : List ℕ) → mem x l ≡ true → mem x (insert_after mp n l) ≡ true
mem-insert_after mp n x [] h = cc
mem-insert_after mp n x (y ∷ l) h = ground (arith, mem-insert_after mp n x l)

pub mem-insert_after_new :
    (mp n : ℕ) (l : List ℕ) → mem mp l ≡ true → mem n (insert_after mp n l) ≡ true
mem-insert_after_new mp n [] h = cc
mem-insert_after_new mp n (y ∷ l) h = ground (arith, mem-insert_after_new mp n l)

replace_first_out : (mp n : ℕ) (l : List ℕ) → mem mp l ≡ false → replace_first mp n l ≡ l
replace_first_out mp n [] h = refl
replace_first_out mp n (x ∷ l) h = ground (arith, replace_first_out mp n l)

length-replace_first : (mp n : ℕ) (l : List ℕ) → length (replace_first mp n l) ≡ length l
length-replace_first mp n [] = refl
length-replace_first mp n (x ∷ l) = ground (arith, length-replace_first mp n l)

pub mem-replace_first :
    (mp n x : ℕ) (l : List ℕ) → x ≢ mp → mem x l ≡ true → mem x (replace_first mp n l) ≡ true
mem-replace_first mp n x [] ne h = cc
mem-replace_first mp n x (y ∷ l) ne h = ground (arith, mem-replace_first mp n x l)

pub mem-replace_first_new :
    (mp n : ℕ) (l : List ℕ) → mem mp l ≡ true → mem n (replace_first mp n l) ≡ true
mem-replace_first_new mp n [] h = cc
mem-replace_first_new mp n (y ∷ l) h = ground (arith, mem-replace_first_new mp n l)

module _ {K V : Type 0} {size : ℕ} {nodes : ℕ → Node K V} {c : ℕ → List ℕ} (n mp : ℕ)
    (linked : Linked size (suc n) nodes c) (n_in : n < size) (mp_in : mp < size) (apart : mp ≢ n)
    (n_end : (nodes n).next ≡ none) where
  -- the chains with `n` behind `mp`
  abbrev pub chained : ℕ → List ℕ
  chained i = if i == n then n ∷ rest (c mp) else insert_after mp n (c i)

  chained_next_in :
      (i j : ℕ) → i < size → (chain_node nodes mp n i).next ≡ some j → (n ≤ j) × (j < size)
  chained_next_in i j h e = ground (arith, linked.next_in i j, linked.next_in mp j)

  chained_injective :
      (i j k : ℕ)
      → i < size
      → j < size
      → (chain_node nodes mp n i).next ≡ some k
      → (chain_node nodes mp n j).next ≡ some k
      → i ≡ j
  chained_injective i j k hi hj ei ej = ground (
    arith,
    linked.next_in i k,
    linked.next_in j k,
    linked.next_in mp k,
    linked.next_injective i j k,
    linked.next_injective mp j k,
    linked.next_injective i mp k,
  )

  chained_end : (i : ℕ) → i < size → (chain_node nodes mp n i).next ≡ none → chained i ≡ i ∷ []
  chained_end i h e = ground (arith, linked.chain_end i, linked.chain_end mp)

  chained_link :
      (i j : ℕ) → i < size → (chain_node nodes mp n i).next ≡ some j → chained i ≡ i ∷ chained j
  chained_link i j h e = ground (
    arith,
    linked.chain_link mp j,
    linked.chain_link i j,
    linked.next_in mp j,
    linked.next_in i j,
    no_return linked mp j mp_in,
    insert_after_out mp n (c j),
    chain_cases linked mp mp_in,
  )

  chained_short : (i : ℕ) → i < size → length (chained i) + n ≤ size + 1
  chained_short i h =
      ground
        (arith, linked.short i, linked.short mp, length-insert_after mp n (c i), length-rest (c mp))

  pub chained-Linked : Linked size n (chain_node nodes mp n) chained
  chained-Linked = record {
    next_in = chained_next_in;
    next_injective = chained_injective;
    chain_end = chained_end;
    chain_link = chained_link;
    short = chained_short;
  }

module _ {K V : Type 0} (null : V) {size : ℕ} {nodes : ℕ → Node K V} {c : ℕ → List ℕ} (n mp o : ℕ)
    (linked : Linked size (suc n) nodes c) (n_in : n < size) (mp_in : mp < size) (apart : mp ≢ n)
    (n_end : (nodes n).next ≡ none) (o_in : o < size) (before : (nodes o).next ≡ some mp) where
  -- the chains with `n` in the place of `mp`
  abbrev pub moved : ℕ → List ℕ
  moved i =
      if i == n then n ∷ rest (c mp) else if i == mp then mp ∷ [] else replace_first mp n (c i)

  pub before_apart : (o ≢ mp) × (o ≢ n)
  before_apart = (
    λ e. ground (arith, no_return linked o mp o_in, first_mem linked mp mp_in),
    λ e. ground arith,
  )

  moved_next_in :
      (i j : ℕ) → i < size → (move_node null nodes o mp n i).next ≡ some j → (n ≤ j) × (j < size)
  moved_next_in i j h e = ground (arith, linked.next_in i j, linked.next_in mp j, before_apart)

  moved_injective :
      (i j k : ℕ)
      → i < size
      → j < size
      → (move_node null nodes o mp n i).next ≡ some k
      → (move_node null nodes o mp n j).next ≡ some k
      → i ≡ j
  moved_injective i j k hi hj ei ej = ground (
    arith,
    before_apart,
    linked.next_in i k,
    linked.next_in j k,
    linked.next_in mp k,
    linked.next_injective i j k,
    linked.next_injective mp j k,
    linked.next_injective i mp k,
  )

  moved_end : (i : ℕ) → i < size → (move_node null nodes o mp n i).next ≡ none → moved i ≡ i ∷ []
  moved_end i h e = ground (arith, before_apart, linked.chain_end i, linked.chain_end mp)

  moved_link :
      (i j : ℕ) → i < size → (move_node null nodes o mp n i).next ≡ some j → moved i ≡ i ∷ moved j
  moved_link i j h e = ground (
    arith,
    before_apart,
    linked.chain_link mp j,
    linked.chain_link i j,
    linked.chain_link i mp,
    linked.next_in mp j,
    linked.next_in i j,
    linked.next_injective i o mp,
    no_return linked mp j mp_in,
    replace_first_out mp n (c j),
    chain_cases linked mp mp_in,
  )

  moved_short : (i : ℕ) → i < size → length (moved i) + n ≤ size + 1
  moved_short i h =
      ground (
        arith,
        linked.short i,
        linked.short mp,
        length-replace_first mp n (c i),
        length-rest (c mp),
      )

  pub moved-Linked : Linked size n (move_node null nodes o mp n) moved
  moved-Linked = record {
    next_in = moved_next_in;
    next_injective = moved_injective;
    chain_end = moved_end;
    chain_link = moved_link;
    short = moved_short;
  }
