-- ===== src/StringTable/Intern.antt =====
-- `Add` and `Remove` of the string table as operations on a finite map from texts to strings.
use native.Mathlib.Nat.{mod-lt}
use sqnim.Prelude.{
  ℕ, ◌+◌, ◌-◌, ◌*◌, ◌%◌, ◌≤◌, ◌<◌, ◌≡◌, inl, inr, refl, ap, ◌∙◌, false, Option, none, some, List,
  [], ◌∷◌, arith, ◌==◌, ltb, if◌then◌else◌, Bool-cases, Option-cases,
}
use sqnim.StringTable.Chains.{
  IsChain, IsChains, held, pushed-IsChains, pushed-held, move_chains_lem, find_string_sound,
  find_string_slot, find_string_hash,
}
use sqnim.StringTable.{
  SqString, StringTable, new_strings, find_string, add_string, remove_string, unlink, hash_str,
  slot_of, link_string, resize_strings,
}
use sqnim.Strings.Affix.{eq_bytes_sound, eq_bytes_refl}
use sqnim.Table.{update}
use sqnim.Value.Compare.{eq_bytes}

-- what the table has for a text
abbrev pub interned : StringTable → List ℕ → Option SqString
interned t y = held t.num_of_slots t.strings y

-- each string stands in the slot of its hash, each text once, and there is a slot for each string
pub record IsInterned (t : StringTable) : Type 0 where
  pub chains : IsChains t.num_of_slots t.strings
  pub slots : 0 < t.num_of_slots
  pub room : t.slot_used ≤ t.num_of_slots

pub new_strings-IsInterned : IsInterned new_strings
new_strings-IsInterned = record { chains = λ i hi. tt; slots = omega arith; room = omega arith }

resize_strings_lem :
    (size : ℕ) (t : StringTable)
    → IsChains t.num_of_slots t.strings
    → 0 < t.num_of_slots
    → IsChains size (resize_strings size t).strings
      × ((y : List ℕ) → held size (resize_strings size t).strings y ≡ interned t y)
unfolding resize_strings find_string
resize_strings_lem size t w pos =
    move_chains_lem t.num_of_slots 0 t.num_of_slots size t.strings (λ i. []) w (omega arith) pos
      (λ i hi. tt) (λ y h. refl) (λ y h. absurd (omega (arith, h)))

-- what `Add` gives
pub record Added (news : List ℕ) (t t' : StringTable) (s : SqString) : Type 0 where
  pub text : s.val ≡ news
  pub table : IsInterned t'
  pub answers : (y : List ℕ) → interned t' y ≡ (if eq_bytes y news then some s else interned t y)

found-Added :
    (news : List ℕ) (t : StringTable) (s : SqString)
    → IsInterned t
    → interned t news ≡ some s
    → Added news t t s
found-Added news t s w e = record {
  text = find_string_sound news _ s e;
  table = w;
  answers = λ y. elim (Bool-cases (eq_bytes y news)) [
    | inl hit ↦ rw (hit, eq_bytes_sound y news hit) e
    | inr miss ↦ rw miss refl
  ];
}

module _ (address : ℕ) (news : List ℕ) (t : StringTable) (w : IsInterned t)
    (fresh : interned t news ≡ none) where
  abbrev added : SqString
  added = record { address = address; val = news; hash = hash_str news }

  abbrev linked : StringTable
  linked = link_string added (slot_of t news) t

  linked-IsChains : IsChains t.num_of_slots linked.strings
  linked-IsChains = pushed-IsChains t.num_of_slots t.strings added refl fresh w.chains

  linked-interned :
      (y : List ℕ) → interned linked y ≡ (if eq_bytes y news then some added else interned t y)
  linked-interned y = pushed-held t.num_of_slots t.strings added refl fresh y

  abbrev grown : StringTable
  grown =
      if ltb t.num_of_slots (t.slot_used + 1)
      then resize_strings (t.num_of_slots * 2) linked
      else linked

  grown-Added : Added news t grown added
  unfolding resize_strings
  grown-Added = elim (Bool-cases (ltb t.num_of_slots (t.slot_used + 1))) [
    | inl crowded ↦
        let (chains, same) =
          resize_strings_lem (t.num_of_slots * 2) linked linked-IsChains w.slots in
        rw crowded (record {
          text = refl;
          table = record {
            chains = chains;
            slots = omega (arith, w.slots);
            room = omega (arith, w.room, w.slots);
          };
          answers = λ y. same y ∙ linked-interned y;
        })
    | inr roomy ↦ rw roomy (record {
      text = refl;
      table = record { chains = linked-IsChains; slots = w.slots; room = ground (arith, w.room) };
      answers = linked-interned;
    })
  ]

add_string_found :
    (address : ℕ) (news : List ℕ) (t : StringTable) (s : SqString)
    → interned t news ≡ some s
    → add_string address news t ≡ (t, s)
unfolding add_string
add_string_found address news t s e = rw (add_string, e) refl

Added-again :
    (news : List ℕ) (t t' : StringTable) (s : SqString)
    → Added news t t' s
    → (again : ℕ) → add_string again news t' ≡ (t', s)
Added-again news t t' s a again =
    add_string_found again news t' s (a.answers news ∙ rw (eq_bytes_refl news) refl)

-- In a well-formed table, the string that `Add` returns has the text. The table is well formed
-- after it, whether it was resized or not, has this string for the text and what it had for every
-- other one; if it already had a string for the text, it is this one. To add the text again gives
-- the same string and leaves the table.
pub add_string-interned :
    (address : ℕ) (news : List ℕ) (t : StringTable)
    → IsInterned t
    → (t' : StringTable) × (s : SqString) × (add_string address news t ≡ (t', s))
      × (s.val ≡ news)
      × IsInterned t'
      × ((y : List ℕ) → interned t' y ≡ (if eq_bytes y news then some s else interned t y))
      × ((other : SqString) → interned t news ≡ some other → s ≡ other)
      × ((again : ℕ) → add_string again news t' ≡ (t', s))
unfolding add_string
add_string-interned address news t w = elim (Option-cases (interned t news)) [
  | inr (s, e) ↦
      let a = found-Added news t s w e in
      (
        t,
        s,
        add_string_found address news t s e,
        a.text,
        w,
        a.answers,
        λ other f. ground arith,
        Added-again news t t s a,
      )
  | inl e ↦
      let a = grown-Added address news t w e in
      (
        grown address news t w e,
        added address news t w e,
        rw (add_string, e) refl,
        a.text,
        a.table,
        a.answers,
        λ other f. cc (e, f),
        Added-again news t _ _ a,
      )
]

unlink_lem :
    (n i : ℕ) (l : List SqString) (s : SqString)
    → IsChain n i l
    → find_string s.val l ≡ some s
    → ((y : List ℕ) (o : SqString) → find_string y l ≡ some o → o.address ≡ s.address → o ≡ s)
    → (l' : List SqString) × (unlink s.address l ≡ some l')
      × IsChain n i l'
      × ((y : List ℕ) → find_string y l' ≡ (if eq_bytes y s.val then none else find_string y l))
unfolding unlink find_string
unlink_lem n i [] s w e only = absurd (cc e)
unlink_lem n i (p ∷ l) s (hashed, placed, once, rest) e only =
    elim (Bool-cases (p.address == s.address)) [
      | inl hit ↦
          let at : p ≡ s = only p.val p (ground (arith, eq_bytes_refl p.val)) (ground arith) in
          (
            l,
            rw (unlink, hit) refl,
            rest,
            λ y. ground (arith, ap (λ x. x.val) at, once, eq_bytes_sound y s.val),
          )
      | inr miss ↦
          let off : eq_bytes s.val p.val ≡ false = ground arith in
          let (l', run, chain, answers) =
            unlink_lem n i l s rest (ground arith)
              (λ y o f g. only y o (ground (arith, once, eq_bytes_sound y p.val)) g) in
          (
            p ∷ l',
            rw (unlink, miss, run) refl,
            (hashed, placed, ground (arith, answers p.val, once), chain),
            λ y. ground (arith, answers y, eq_bytes_sound y s.val, eq_bytes_sound y p.val),
          )
    ]

replaced-IsChains :
    (n h : ℕ) (l : List SqString) (strings : ℕ → List SqString)
    → IsChains n strings
    → IsChain n h l
    → IsChains n (update h l strings)
replaced-IsChains n h l strings w c i hi = elim (Bool-cases (i == h)) [
  | inl at ↦ let at' : h ≡ i = ground arith in rw at (rw at' at c)
  | inr off ↦ rw off (w i hi)
]

replaced-held :
    (n : ℕ) (x y : List ℕ) (l : List SqString) (strings : ℕ → List SqString)
    → ((z : List ℕ)
        → find_string z l
          ≡ (if eq_bytes z x then none else find_string z (strings (hash_str x % n))))
    → held n (update (hash_str x % n) l strings) y
      ≡ (if eq_bytes y x then none else held n strings y)
replaced-held n x y l strings answers = elim (Bool-cases (hash_str y % n == hash_str x % n)) [
  | inl here ↦ let at : hash_str y % n ≡ hash_str x % n = ground arith in rw (here, at) (answers y)
  | inr there ↦
      let off : eq_bytes y x ≡ false = elim (Bool-cases (eq_bytes y x)) [
        | inr miss ↦ miss
        | inl hit ↦ absurd (ground (arith, ap (λ z. hash_str z % n) (eq_bytes_sound y x hit)))
      ] in
      rw (there, off) refl
]

-- In a well-formed table that has the string, and no other one at its address, `Remove` finds it.
-- The table that it leaves is well formed, has no string for the text, and has what it had for every
-- other text.
pub remove_string-interned :
    (bs : SqString) (t : StringTable)
    → IsInterned t
    → interned t bs.val ≡ some bs
    → ((y : List ℕ) (o : SqString) → interned t y ≡ some o → o.address ≡ bs.address → o ≡ bs)
    → (t' : StringTable) × (remove_string bs t ≡ some t')
      × IsInterned t'
      × ((y : List ℕ) → interned t' y ≡ (if eq_bytes y bs.val then none else interned t y))
unfolding remove_string
remove_string-interned bs t w e only =
    let inside = mod-lt (hash_str bs.val) w.slots in
    let chain = w.chains (slot_of t bs.val) inside in
    let at : bs.hash % t.num_of_slots ≡ slot_of t bs.val =
      ap (λ x. x % t.num_of_slots)
        (find_string_hash t.num_of_slots (slot_of t bs.val) bs.val _ bs chain e) in
    let (l, run, chain', answers) =
      unlink_lem t.num_of_slots (slot_of t bs.val) (t.strings (slot_of t bs.val)) bs chain e
        (λ y o f g.
          only y o (rw (find_string_slot t.num_of_slots (slot_of t bs.val) y _ o chain f) f) g) in
    (
      record t { strings = update (slot_of t bs.val) l t.strings; slot_used = t.slot_used - 1 },
      rw (remove_string, at, run, at) refl,
      record {
        chains = replaced-IsChains t.num_of_slots (slot_of t bs.val) l t.strings w.chains chain';
        slots = w.slots;
        room = omega (arith, w.room);
      },
      λ y. replaced-held t.num_of_slots bs.val y l t.strings answers,
    )
