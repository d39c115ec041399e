-- ===== src/Strings/Quoted.antt =====
-- An escaped text as the lexer reads it.
use sqnim.Lexer.Steps.{
  LexState, Lexed, lexed, failed, spent, Lex, ◌>>=◌, give, cur_char, advance, on_char, hex_digits,
  hex_escape, read_escape, string_loop,
}
use sqnim.Lexer.{is_hex_digit, is_digit, to_upper}
use sqnim.Prelude.{
  ℕ, zero, suc, ◌+◌, ◌-◌, ◌*◌, ◌/◌, ◌%◌, ◌≤◌, ◌<◌, ◌≡◌, inl, inr, refl, ap, ◌∙◌, subst, sym, Bool,
  true, false, ◌||◌, none, some, List, [], ◌∷◌, ◌++◌, append_assoc, append-nil, length, ltb, ◌==◌,
  if◌then◌else◌, arith, Bool-cases,
}
use sqnim.Strings.Escape.{escape_letter, hex_letter, print_hex, escape_byte, string_escape}

hex_letter-digit : (d : ℕ) → d < 16 → is_hex_digit (hex_letter d) ≡ true
unfolding hex_letter
hex_letter-digit d h = ground arith

hex_letter_value :
    (d : ℕ)
    → d < 16
    → (if is_digit (hex_letter d) then hex_letter d - 48 else to_upper (hex_letter d) - 65 + 10) ≡ d
unfolding hex_letter
hex_letter_value d h = ground arith

if_true : {A : Type 0} (b : Bool) (x y : A) → b ≡ true → (if b then x else y) ≡ x
if_true true x y h = refl
if_true false x y h = cc

no_digits : {F : Type 0} (v : ℕ) (s : LexState F) → hex_digits 0 v s ≡ lexed v s
unfolding hex_digits give
no_digits v s = refl

module _ {F : Type 0} (s : LexState F) where
  -- the loop of `ReadString` on this input, with the text so far
  abbrev loop_on : ℕ → List ℕ → List ℕ → Lexed F (List ℕ)
  loop_on f text l = string_loop f 34 false text (record s { input = l })

  -- it goes on after a character, at some column
  abbrev GoesOn : ℕ → List ℕ → List ℕ → ℕ → List ℕ → Type 0
  GoesOn f text l c rest =
      (column : ℕ) × (loop_on (suc f) text l
        ≡ string_loop f 34 false (text ++ c ∷ [])
            (record s { input = rest; current_column = column }))

  backslash_step : (f : ℕ) (text l : List ℕ) → GoesOn f text (92 ∷ 92 ∷ l) 92 l
  unfolding string_loop on_char advance read_escape cur_char give ◌>>=◌
  backslash_step f text l = (s.current_column + 1 + 1, refl)

  quote_step : (f : ℕ) (text l : List ℕ) → GoesOn f text (92 ∷ 34 ∷ l) 34 l
  unfolding string_loop on_char advance read_escape cur_char give ◌>>=◌
  quote_step f text l = (s.current_column + 1 + 1, refl)

  apostrophe_step : (f : ℕ) (text l : List ℕ) → GoesOn f text (92 ∷ 39 ∷ l) 39 l
  unfolding string_loop on_char advance read_escape cur_char give ◌>>=◌
  apostrophe_step f text l = (s.current_column + 1 + 1, refl)

  zero_step : (f : ℕ) (text l : List ℕ) → GoesOn f text (92 ∷ 48 ∷ l) 0 l
  unfolding string_loop on_char advance read_escape cur_char give ◌>>=◌
  zero_step f text l = (s.current_column + 1 + 1, refl)

  plain_step :
      (f c : ℕ) (text l : List ℕ)
      → (c == 0) ≡ false
      → (c == 34) ≡ false
      → (c == 10) ≡ false
      → (c == 92) ≡ false
      → GoesOn f text (c ∷ l) c l
  unfolding string_loop on_char advance ◌>>=◌
  plain_step f c text l zero_no quote_no line_no back_no =
      (s.current_column + 1, rw (zero_no, quote_no, line_no, back_no) refl)

  digit_step :
      (n v a column : ℕ) (l : List ℕ)
      → a < 16
      → hex_digits (suc n) v (record s { input = hex_letter a ∷ l; current_column = column })
        ≡ hex_digits n (v * 16 + a) (record s { input = l; current_column = column + 1 })
  unfolding hex_digits cur_char advance ◌>>=◌
  digit_step n v a column l h =
      let t : LexState F = record s { input = hex_letter a ∷ l; current_column = column } in
      ap (λ (m : Lex F ℕ). m t) (if_true (is_hex_digit (hex_letter a)) _ _ (hex_letter-digit a h))
      ∙ ap
          (λ (d : ℕ).
            hex_digits n (v * 16 + d) (record s { input = l; current_column = column + 1 }))
          (hex_letter_value a h)

  hex_escape_step :
      (a b column : ℕ) (l : List ℕ)
      → a < 16
      → b < 16
      → hex_escape 2
          (record s { input = b'x' ∷ hex_letter a ∷ hex_letter b ∷ l; current_column = column })
        ≡ lexed
            ((0 * 16 + a) * 16 + b)
            (record s { input = l; current_column = column + 1 + 1 + 1 })
  unfolding hex_escape cur_char advance give ◌>>=◌
  hex_escape_step a b column l ha hb =
      let t : LexState F = record s {
        input = hex_letter a ∷ hex_letter b ∷ l;
        current_column = column + 1;
      } in
      ap (λ (m : Lex F ℕ). m t) (if_true (is_hex_digit (hex_letter a)) _ _ (hex_letter-digit a ha))
      ∙ (digit_step 1 0 a (column + 1) (hex_letter b ∷ l) ha
          ∙ (digit_step 0 (0 * 16 + a) b (column + 1 + 1) l hb
              ∙ no_digits ((0 * 16 + a) * 16 + b) _))

  read_escape_step :
      (a b column : ℕ) (l : List ℕ)
      → a < 16
      → b < 16
      → read_escape
          (record s { input = b'x' ∷ hex_letter a ∷ hex_letter b ∷ l; current_column = column })
        ≡ lexed
            (((0 * 16 + a) * 16 + b) % 256 ∷ [])
            (record s { input = l; current_column = column + 1 + 1 + 1 })
  unfolding read_escape cur_char give ◌>>=◌
  read_escape_step a b column l ha hb =
      ap
        (λ (r : Lexed F ℕ). elim r as (λ x. Lexed F (List ℕ)) [
          | lexed v u ↦ lexed (v % 256 ∷ []) u
          | failed e ↦ failed e
          | spent ↦ spent
        ])
        (hex_escape_step a b column l ha hb)

  hex_step :
      (f a b : ℕ) (text l : List ℕ)
      → a < 16
      → b < 16
      → GoesOn f text
          (92 ∷ b'x' ∷ hex_letter a ∷ hex_letter b ∷ l)
          (((0 * 16 + a) * 16 + b) % 256)
          l
  unfolding string_loop on_char advance cur_char ◌>>=◌
  hex_step f a b text l ha hb = (
    s.current_column + 1 + 1 + 1 + 1,
    ap
        (λ (r : Lexed F (List ℕ)). elim r as (λ x. Lexed F (List ℕ)) [
          | lexed k u ↦ string_loop f 34 false (text ++ k) u
          | failed e ↦ failed e
          | spent ↦ spent
        ])
        (read_escape_step a b (s.current_column + 1) l ha hb),
  )

-- `isprint` of characters in ASCII
abbrev pub IsAsciiPrint : (ℕ → Bool) → Type 0
IsAsciiPrint is_print = (c : ℕ) → is_print c ≡ true → (32 ≤ c) × (c < 127)

abbrev pub AllAscii : List ℕ → Type 0
AllAscii [] = Unit {0}
AllAscii (c ∷ s) = (c < 128) × AllAscii s

abbrev shown_byte : ℕ → List ℕ
shown_byte d = elim (escape_letter d) [ some k ↦ 92 ∷ k ∷ [] | none ↦ d ∷ [] ]

no_letter :
    (c : ℕ)
    → 32 ≤ c
    → (c == 92) ≡ false
    → (c == 34) ≡ false
    → (c == 39) ≡ false
    → escape_letter c ≡ none
unfolding escape_letter
no_letter c h back_no quote_no apostrophe_no = ground arith

shown_step :
    {F : Type 0} (s : LexState F) (f c d : ℕ) (text l : List ℕ)
    → (c == d) ≡ true
    → GoesOn s f text (shown_byte d ++ l) d l
    → GoesOn s f text (shown_byte c ++ l) c l
shown_step s f c d text l e h =
    let same : d ≡ c = ground (arith, e) in
    subst (λ (k : ℕ). GoesOn s f text (shown_byte k ++ l) k l) same h

byte_step :
    {F : Type 0} (s : LexState F) (is_print : ℕ → Bool) (f c : ℕ) (text l : List ℕ)
    → IsAsciiPrint is_print
    → c < 128
    → GoesOn s f text (escape_byte is_print c ++ l) c l
unfolding escape_byte print_hex escape_letter
byte_step s is_print f c text l ascii small = elim (Bool-cases (is_print c || (c == 0))) [
  | inr hidden ↦
      let low : ltb c 128 ≡ true = ground (arith, small) in
      rw (hidden, low)
        (subst
          (λ (d : ℕ).
            GoesOn s f text (92 ∷ b'x' ∷ hex_letter (c / 16) ∷ hex_letter (c % 16) ∷ l) d l)
          (omega (arith, small))
          (hex_step s f (c / 16) (c % 16) text l (omega (arith, small)) (omega arith)))
  | inl shown ↦ rw shown (elim (Bool-cases (c == 92)) [
    | inl e ↦ shown_step s f c 92 text l e (backslash_step s f text l)
    | inr back_no ↦ elim (Bool-cases (c == 34)) [
      | inl e ↦ shown_step s f c 34 text l e (quote_step s f text l)
      | inr quote_no ↦ elim (Bool-cases (c == 39)) [
        | inl e ↦ shown_step s f c 39 text l e (apostrophe_step s f text l)
        | inr apostrophe_no ↦ elim (Bool-cases (c == 0)) [
          | inl e ↦ shown_step s f c 0 text l e (zero_step s f text l)
          | inr zero_no ↦
              let printed : is_print c ≡ true = ground (arith, shown, zero_no) in
              let high = (ascii c printed).0 in
              rw (no_letter c high back_no quote_no apostrophe_no)
                (plain_step s f c text l zero_no quote_no (ground (arith, high)) back_no)
        ]
      ]
    ]
  ])
]

-- The lexer reads an escaped text between quotation marks as the text: for bytes below 128, where
-- `isprint` accepts none but the printable characters of ASCII, the loop of `ReadString` ends with the
-- text and stands behind the closing mark, with fuel for more than the bytes of the text.
pub string_loop-string_escape :
    {F : Type 0} (s : LexState F) (is_print : ℕ → Bool) (f : ℕ) (text before rest : List ℕ)
    → IsAsciiPrint is_print
    → AllAscii text
    → length text < f
    → (u : LexState F) × (string_loop f 34 false before
          (record s { input = string_escape is_print text ++ (34 ∷ rest) })
        ≡ lexed (before ++ text) u)
      × (u.input ≡ rest)
unfolding string_escape string_loop on_char advance cur_char give ◌>>=◌
string_loop-string_escape s is_print zero text before rest ascii all few =
    absurd (omega (arith, few))
string_loop-string_escape s is_print (suc f) [] before rest ascii all few = (
  record s { input = rest; current_column = s.current_column + 1 },
  ap (λ (k : List ℕ). lexed k (record s { input = rest; current_column = s.current_column + 1 }))
      (sym (append-nil before)),
  refl,
)
string_loop-string_escape s is_print (suc f) (c ∷ text) before rest ascii (small, all) few =
    let l = string_escape is_print text ++ (34 ∷ rest) in
    let (column, step) = byte_step s is_print f c before l ascii small in
    let (u, ends, left) =
      string_loop-string_escape (record s { current_column = column }) is_print f text
        (before ++ c ∷ []) rest ascii all (omega (arith, few)) in
    (
      u,
      ap (λ (k : List ℕ). string_loop (suc f) 34 false before (record s { input = k }))
            (append_assoc (escape_byte is_print c) (string_escape is_print text) (34 ∷ rest))
          ∙ (step ∙ (ends ∙ ap (λ (k : List ℕ). lexed k u) (append_assoc before (c ∷ []) text))),
      left,
    )
