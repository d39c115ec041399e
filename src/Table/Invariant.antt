-- ===== src/Table/Invariant.antt =====
-- When a table is well formed, and the room for a new key in one.
use native.Mathlib.Nat.{mod-lt}
use sqnim.Prelude.{
  ℕ, zero, suc, ◌*◌, ◌%◌, ◌<◌, ◌≡◌, ◌≢◌, ◌⊎◌, inl, inr, refl, sym, true, false, not, ◌&&◌, none,
  some, List, arith, ◌==◌, ltb, Bool-cases, Option-cases,
}
use sqnim.Table.{Node, Table, update, free_node, make_room, find_previous, chain_node, move_node}
use sqnim.Table.Chain.{find_previous_lem, first_mem}
use sqnim.Table.Count.{count_keys, count_congr, count_update}
use sqnim.Table.Keys.{Keyed, Place}
use sqnim.Table.Places.{apart, chained-Keyed, chained-Place, moved-Keyed, moved-Place}
use sqnim.Table.Room.{before_apart}

-- the sizes of tables
abbrev pub size_of : ℕ → ℕ
size_of zero = 4
size_of (suc p) = 2 * size_of p

pub record IsTable {K V : Type 0} (hash : K → ℕ) (t : Table K V) : Type 0 where
  pub chains : ℕ → List ℕ
  pub keyed : Keyed (λ k. hash k % t.size) t.size (suc t.first_free) t.nodes chains
  pub free_in : t.first_free < t.size
  pub free_key : (t.nodes t.first_free).key ≡ none
  pub free_next : (t.nodes t.first_free).next ≡ none
  pub power : ℕ
  pub sized : t.size ≡ size_of power
  pub counted : count_keys t.size t.nodes ≡ t.used

-- the table holds a key with a value
abbrev pub Entry : {K V : Type 0} → ℕ → (ℕ → Node K V) → K → V → Type 0
Entry size nodes k v = (i : ℕ) × (i < size) × ((nodes i).key ≡ some k) × ((nodes i).val ≡ v)

-- the nodes hold the same entries, but for links that the place `mp` may have dropped
pub record Moves {K V : Type 0} (size mp : ℕ) (nodes nodes' : ℕ → Node K V) : Type 0 where
  pub from : (k : K) (v : V) → Entry size nodes' k v → Entry size nodes k v
  pub to : (k : K) (v : V) → Entry size nodes k v → Entry size nodes' k v
  pub count : count_keys size nodes' ≡ count_keys size nodes
  pub bare :
      (i : ℕ)
      → i < size
      → i ≢ mp
      → (nodes' i).key ≡ none
      → ((nodes i).key ≡ none) × ((nodes i).next ≡ none → (nodes' i).next ≡ none)

module _ {K V : Type 0} (n h : ℕ) {size : ℕ} (nodes : ℕ → Node K V) (n_in : n < size)
    (n_free : (nodes n).key ≡ none) (h_in : h < size) (ne : h ≢ n) (y : K)
    (taken : (nodes h).key ≡ some y) where
  chain_node-key : (i : ℕ) → (chain_node nodes h n i).key ≡ (nodes i).key
  chain_node-key i = ground arith

  pub chain_node-Moves : Moves size n nodes (chain_node nodes h n)
  chain_node-Moves = record {
    from = λ k v (i, hi, e, w). (i, hi, ground arith, ground arith);
    to = λ k v (i, hi, e, w). (i, hi, ground arith, ground arith);
    count = count_congr size nodes (chain_node nodes h n) chain_node-key;
    bare = λ i hi m e. (ground arith, ground arith);
  }

  module _ (null : V) (o : ℕ) (oh : o ≢ h) (on : o ≢ n) (o_in : o < size)
      (before : (nodes o).next ≡ some h) where
    moved_from :
        (k : K) (v : V) → Entry size (move_node null nodes o h n) k v → Entry size nodes k v
    moved_from k v (i, hi, e, w) = elim (Bool-cases (i == n)) [
      | inl at ↦ (h, h_in, ground arith, ground arith)
      | inr off ↦ (i, hi, ground arith, ground arith)
    ]

    moved_to : (k : K) (v : V) → Entry size nodes k v → Entry size (move_node null nodes o h n) k v
    moved_to k v (i, hi, e, w) = elim (Bool-cases (i == h)) [
      | inl at ↦ (n, n_in, ground arith, ground arith)
      | inr off ↦ (i, hi, ground arith, ground arith)
    ]

    abbrev one : ℕ → Node K V
    one = update o (record (nodes o) { next = some n }) nodes

    abbrev two : ℕ → Node K V
    two = update n (nodes h) one

    moved_count : count_keys size (move_node null nodes o h n) ≡ count_keys size nodes
    moved_count = ground (
      arith,
      count_update size o (record (nodes o) { next = some n }) nodes,
      count_update size n (nodes h) one,
      count_update size h (free_node null) two,
    )

    pub move_node-Moves : Moves size h nodes (move_node null nodes o h n)
    move_node-Moves = record {
      from = moved_from;
      to = moved_to;
      count = moved_count;
      bare = λ i hi m e. (ground arith, ground arith);
    }

-- room for a key in the table: the nodes, the place and their chains
pub record Room {K V : Type 0} (main : K → ℕ) (t : Table K V) (h : ℕ) (nodes : ℕ → Node K V)
    (mp : ℕ) : Type 0 where
  pub chains : ℕ → List ℕ
  pub lo : ℕ
  pub keyed : Keyed main t.size lo nodes chains
  pub place : Place main t.size lo nodes chains h mp
  pub moves : Moves t.size mp t.nodes nodes
  -- the free place is used, or may still be
  pub low :
      (lo ≡ suc t.first_free)
      ⊎ ((lo ≡ t.first_free) × ((mp ≡ t.first_free) ⊎ ((nodes t.first_free).key ≢ none)))

module _ {K V : Type 0} (null : V) (hash : K → ℕ) (t : Table K V) (w : IsTable hash t) where
  pub size_positive : 0 < t.size
  size_positive = omega (arith, w.free_in)

  pub main_in : (k : K) → hash k % t.size < t.size
  main_in k = mod-lt (hash k) size_positive

  abbrev main_of : K → ℕ
  main_of k = hash k % t.size

  same_Moves : (mp : ℕ) → Moves t.size mp t.nodes t.nodes
  same_Moves mp = record {
    from = λ k v x. x;
    to = λ k v x. x;
    count = refl;
    bare = λ i hi m e. (e, λ f. f);
  }

  free_Room : (h : ℕ) → h < t.size → (t.nodes h).key ≡ none → Room main_of t h t.nodes h
  free_Room h h_in e = record {
    chains = w.chains;
    lo = suc t.first_free;
    keyed = w.keyed;
    place = record {
      inside = h_in;
      free = e;
      here = first_mem w.keyed.linked h h_in;
      owner = λ x f. cc (e, f);
      stands = inl refl;
      alone = λ i x hi f m. refl;
    };
    moves = same_Moves h;
    low = inl refl;
  }

  chain_own :
      (h : ℕ) (y : K)
      → h < t.size
      → (t.nodes h).key ≡ some y
      → (ltb t.first_free h && not (hash y % t.size == h)) ≡ false
      → hash y % t.size ≡ h
  chain_own h y h_in e c = ground (
    arith,
    w.keyed.foreign h y,
    apart t.first_free h y w.keyed w.free_in w.free_key w.free_next h_in e,
  )

  chained_Room :
      (h : ℕ) (y : K)
      → h < t.size
      → (t.nodes h).key ≡ some y
      → hash y % t.size ≡ h
      → Room main_of t h (chain_node t.nodes h t.first_free) t.first_free
  chained_Room h y h_in e own =
      let f = t.first_free in
      record {
        chains = _;
        lo = f;
        keyed = chained-Keyed f h y w.keyed w.free_in w.free_key w.free_next h_in e own;
        place = chained-Place f h y w.keyed w.free_in w.free_key w.free_next h_in e own;
        moves =
            chain_node-Moves f h t.nodes w.free_in w.free_key h_in
              (apart f h y w.keyed w.free_in w.free_key w.free_next h_in e) y e;
        low = inr (refl, inl refl);
      }

  previous :
      (h : ℕ) (y : K)
      → h < t.size
      → (t.nodes h).key ≡ some y
      → hash y % t.size ≢ h
      → (o : ℕ) × (find_previous t.size t.nodes h (hash y % t.size) ≡ some o)
        × (o < t.size)
        × ((t.nodes o).next ≡ some h)
  previous h y h_in e other =
      find_previous_lem w.keyed.linked t.size (hash y % t.size) h (main_in y)
        (omega (arith, w.keyed.linked.short (hash y % t.size) (main_in y)))
        (w.keyed.reached h y h_in e) (λ p. other (sym p))

  moved_Room :
      (h : ℕ) (y : K)
      → h < t.size
      → (t.nodes h).key ≡ some y
      → hash y % t.size ≢ h
      → (o : ℕ) → o < t.size
      → (t.nodes o).next ≡ some h
      → Room main_of t h (move_node null t.nodes o h t.first_free) h
  moved_Room h y h_in e other o o_in before =
      let f = t.first_free in
      let (oh, on) =
        before_apart null f h o w.keyed.linked w.free_in h_in
          (apart f h y w.keyed w.free_in w.free_key w.free_next h_in e) w.free_next o_in before in
      record {
        chains = _;
        lo = f;
        keyed =
            moved-Keyed f h y w.keyed w.free_in w.free_key w.free_next h_in e null o other o_in
              before;
        place =
            moved-Place f h y w.keyed w.free_in w.free_key w.free_next h_in e null o other o_in
              before;
        moves =
            move_node-Moves f h t.nodes w.free_in w.free_key h_in
              (apart f h y w.keyed w.free_in w.free_key w.free_next h_in e) y e null o oh on o_in
              before;
        low = inr (refl, inr (ground arith));
      }

  made_move :
      (h o : ℕ) (y : K)
      → (t.nodes h).key ≡ some y
      → (ltb t.first_free h && not (hash y % t.size == h)) ≡ true
      → find_previous t.size t.nodes h (hash y % t.size) ≡ some o
      → make_room null hash t h ≡ some (move_node null t.nodes o h t.first_free, h)
  unfolding make_room
  made_move h o y e move found = ground arith

  made_chain :
      (h : ℕ) (y : K)
      → (t.nodes h).key ≡ some y
      → (ltb t.first_free h && not (hash y % t.size == h)) ≡ false
      → make_room null hash t h ≡ some (chain_node t.nodes h t.first_free, t.first_free)
  unfolding make_room
  made_chain h y e chain = ground arith

  -- Room can be made for any main position.
  pub make_room_lem :
      (h : ℕ)
      → h < t.size
      → (nodes : ℕ → Node K V) × (mp : ℕ) × (make_room null hash t h ≡ some (nodes, mp))
        × Room (λ k. hash k % t.size) t h nodes mp
  unfolding make_room
  make_room_lem h h_in = elim (Option-cases (t.nodes h).key) [
    | inl e ↦ (t.nodes, h, rw (e, make_room), free_Room h h_in e)
    | inr (y, e) ↦
        let off : h ≢ t.first_free =
          apart t.first_free h y w.keyed w.free_in w.free_key w.free_next h_in e in
        elim (Bool-cases (ltb t.first_free h && not (hash y % t.size == h))) [
          | inr chain ↦ (
            chain_node t.nodes h t.first_free,
            t.first_free,
            made_chain h y e chain,
            chained_Room h y h_in e (chain_own h y h_in e chain),
          )
          | inl move ↦
              let other : hash y % t.size ≢ h = ground arith in
              let (o, found, o_in, before) = previous h y h_in e other in
              (
                move_node null t.nodes o h t.first_free,
                h,
                made_move h o y e move found,
                moved_Room h y h_in e other o o_in before,
              )
        ]
  ]
