-- ===== src/StringTable/Chains.antt =====
-- The chains of the string table: what each holds, and what moving them does to it.
use sqnim.Prelude.{
  ℕ, zero, suc, ◌+◌, ◌%◌, ◌≤◌, ◌<◌, ◌≡◌, ◌≢◌, inl, inr, refl, sym, Option, none, some, List, [],
  ◌∷◌, arith, ◌==◌, if◌then◌else◌, Bool-cases, Option-cases,
}
use native.Mathlib.Nat.{mod-lt}
use sqnim.StringTable.{SqString, find_string, move_chain, move_chains, hash_str}
use sqnim.Strings.Affix.{eq_bytes_sound, eq_bytes_refl}
use sqnim.Table.{update}
use sqnim.Value.Compare.{eq_bytes}

-- A chain of slot `i` of `n`: the strings have their hash and this slot, and each text stands once.
abbrev pub IsChain : ℕ → ℕ → List SqString → Type 0
IsChain n i [] = Unit {0}
IsChain n i (s ∷ l) =
    (s.hash ≡ hash_str s.val) × (s.hash % n ≡ i) × (find_string s.val l ≡ none) × IsChain n i l

-- what the chains hold for a text
abbrev pub held : ℕ → (ℕ → List SqString) → List ℕ → Option SqString
held n strings y = find_string y (strings (hash_str y % n))

pub find_string_sound :
    (y : List ℕ) (l : List SqString) (s : SqString) → find_string y l ≡ some s → s.val ≡ y
unfolding find_string
find_string_sound y [] s h = cc h
find_string_sound y (p ∷ l) s h = ground (arith, find_string_sound y l s, eq_bytes_sound y p.val)

-- a text that a chain holds has its slot
pub find_string_slot :
    (n i : ℕ) (y : List ℕ) (l : List SqString) (s : SqString)
    → IsChain n i l
    → find_string y l ≡ some s
    → hash_str y % n ≡ i
unfolding find_string
find_string_slot n i y [] s w h = cc h
find_string_slot n i y (p ∷ l) s (hashed, placed, fresh, rest) h =
    elim (Bool-cases (eq_bytes y p.val)) [
      | inl hit ↦ rw (eq_bytes_sound y p.val hit, ← hashed) placed
      | inr miss ↦ find_string_slot n i y l s rest (ground arith)
    ]

pub find_string_hash :
    (n i : ℕ) (y : List ℕ) (l : List SqString) (s : SqString)
    → IsChain n i l
    → find_string y l ≡ some s
    → s.hash ≡ hash_str y
unfolding find_string
find_string_hash n i y [] s w h = cc h
find_string_hash n i y (p ∷ l) s (hashed, placed, once, rest) h =
    elim (Bool-cases (eq_bytes y p.val)) [
      | inl hit ↦ let at : p ≡ s = ground arith in rw (← at, eq_bytes_sound y p.val hit) hashed
      | inr miss ↦ find_string_hash n i y l s rest (ground arith)
    ]

find_string-elsewhere :
    (n i : ℕ) (y : List ℕ) (l : List SqString)
    → IsChain n i l
    → hash_str y % n ≢ i
    → find_string y l ≡ none
find_string-elsewhere n i y l w off = elim (Option-cases (find_string y l)) [
  | inl e ↦ e
  | inr (s, e) ↦ absurd (off (find_string_slot n i y l s w e))
]

abbrev pub IsChains : ℕ → (ℕ → List SqString) → Type 0
IsChains n strings = (i : ℕ) → i < n → IsChain n i (strings i)

abbrev first : Option SqString → Option SqString → Option SqString
first none b = b
first (some s) b = some s

module _ (n : ℕ) (strings : ℕ → List SqString) (p : SqString) (hashed : p.hash ≡ hash_str p.val)
    (fresh : held n strings p.val ≡ none) where
  abbrev pub pushed : ℕ → List SqString
  pushed = update (p.hash % n) (p ∷ strings (p.hash % n)) strings

  pub pushed-IsChains : IsChains n strings → IsChains n pushed
  pushed-IsChains w i hi = elim (Bool-cases (i == p.hash % n)) [
    | inl at ↦
        let at' : i ≡ p.hash % n = ground arith in
        let fresh' : find_string p.val (strings (p.hash % n)) ≡ none = rw hashed fresh in
        rw at (hashed, sym at', fresh', rw (← at') (w i hi))
    | inr off ↦ rw off (w i hi)
  ]

  pub pushed-held :
      (y : List ℕ) → held n pushed y ≡ (if eq_bytes y p.val then some p else held n strings y)
  unfolding find_string
  pushed-held y = elim (Bool-cases (eq_bytes y p.val)) [
    | inl hit ↦
        let at : hash_str y % n ≡ p.hash % n = rw (eq_bytes_sound y p.val hit, hashed) refl in
        ground (arith, at)
    | inr miss ↦ ground arith
  ]

pub move_chain_lem :
    (m j n : ℕ) (l : List SqString) (strings : ℕ → List SqString)
    → IsChain m j l
    → IsChains n strings
    → ((y : List ℕ) (s : SqString) → find_string y l ≡ some s → held n strings y ≡ none)
    → IsChains n (move_chain n l strings)
      × ((y : List ℕ)
          → held n (move_chain n l strings) y ≡ first (find_string y l) (held n strings y))
unfolding move_chain find_string
move_chain_lem m j n [] strings c w apart = (w, λ y. refl)
move_chain_lem m j n (p ∷ next) strings (hashed, placed, once, rest) w apart =
    let fresh : held n strings p.val ≡ none = apart p.val p (ground (arith, eq_bytes_refl p.val)) in
    let moved = pushed-held n strings p hashed fresh in
    let (w', kept) =
      move_chain_lem m j n next (pushed n strings p hashed fresh) rest
        (pushed-IsChains n strings p hashed fresh w)
        (λ y s e. ground (arith, moved y, once, e, apart y s, eq_bytes_sound y p.val)) in
    (w', λ y. ground (arith, kept y, moved y, once, eq_bytes_sound y p.val))

-- Moving all chains from slot `i` on: the texts of these slots come to what is there.
pub move_chains_lem :
    (c i m n : ℕ) (old strings : ℕ → List SqString)
    → IsChains m old
    → i + c ≡ m
    → 0 < m
    → IsChains n strings
    → ((y : List ℕ) → i ≤ hash_str y % m → held n strings y ≡ none)
    → ((y : List ℕ) → hash_str y % m < i → held n strings y ≡ held m old y)
    → IsChains n (move_chains c i n old strings)
      × ((y : List ℕ) → held n (move_chains c i n old strings) y ≡ held m old y)
unfolding move_chains
move_chains_lem zero i m n old strings o total pos w above below =
    (w, λ y. below y (ground (arith, mod-lt (hash_str y) pos)))
move_chains_lem (suc c) i m n old strings o total pos w above below =
    let (w', kept) =
      move_chain_lem m i n (old i) strings (o i (omega arith)) w (λ y s e.
        above y (omega (arith, find_string_slot m i y (old i) s (o i (omega arith)) e))) in
    move_chains_lem c (suc i) m n old _ o (omega arith) pos w'
      (λ y h.
        ground (arith, kept y, above y, find_string-elsewhere m i y (old i) (o i (omega arith))))
      (λ y h. elim (Bool-cases (hash_str y % m == i)) [
        | inl at ↦
            let at' : hash_str y % m ≡ i = ground arith in rw at' (ground (arith, kept y, above y))
        | inr off ↦
            ground (arith, kept y, below y, find_string-elsewhere m i y (old i) (o i (omega arith)))
      ])
