-- ===== src/Tests/Text.antt =====
-- Literals, characters and strings.
use sqnim.Lexer.Numbers.{read_number-decimal, read_number-hexadecimal}
use sqnim.Lexer.Unicode.{decode, decode-add_utf8}
use sqnim.Lexer.{add_utf8, read_number, ok, integer}
use sqnim.Lexer.Steps.{LexState, lexed, string_loop}
use sqnim.Strings.Escape.{string_escape}
use sqnim.Strings.Quoted.{IsAsciiPrint, string_loop-string_escape}
use sqnim.Lexer.Token.{LexTypes, lex}
use sqnim.Lexer.Whole.{Outcome, lex-Outcome}
use sqnim.Prelude.Int.{pos}
use sqnim.Prelude.{
  Bool, none, ltb, leb, ◌&&◌, ℕ, ◌≡◌, ◌↔◌, ◌⊎◌, refl, true, false, List, [], ◌∷◌, ◌++◌, some, arith,
}
use sqnim.Strings.Affix.{startswith-endswith}
use sqnim.Strings.Split.{joined, AllLack, split-joined}
use sqnim.Strings.{startswith, endswith, split, pieces}
use sqnim.Word.{of_word}

-- a stand-in for `strtod`
abbrev as_bytes : List ℕ → List ℕ
as_bytes s = s

abbrev digits : List ℕ
digits = 50 ∷ 51 ∷ []

-- 123;
read_number-decimal_example :
    read_number as_bytes 49 (50 ∷ 51 ∷ 59 ∷ []) ≡ ok (integer (of_word 123)) (59 ∷ [])
read_number-decimal_example =
    read_number-decimal as_bytes 49 digits (59 ∷ []) refl (ground arith) (refl, (refl, tt))
      (refl, refl, ground arith)

-- 0xaF)
read_number-hexadecimal_example :
    read_number as_bytes 48 (120 ∷ 97 ∷ 70 ∷ 41 ∷ []) ≡ ok (integer (of_word 175)) (41 ∷ [])
read_number-hexadecimal_example =
    read_number-hexadecimal as_bytes 120 (97 ∷ 70 ∷ []) (41 ∷ []) refl (refl, (refl, tt)) refl

decode-add_utf8_example : decode (add_utf8 0x20AC ++ 33 ∷ []) ≡ some (0x20AC, 33 ∷ [])
decode-add_utf8_example = decode-add_utf8 0x20AC (33 ∷ []) (omega arith)

startswith-endswith_example :
    ((startswith (97 ∷ 98 ∷ []) (97 ∷ []) ≡ true) ↔ ((t : List ℕ) × (97 ∷ 98 ∷ [] ≡ 97 ∷ [] ++ t)))
    × ((endswith (97 ∷ 98 ∷ []) (97 ∷ []) ≡ true) ↔ ((t : List ℕ) × (97 ∷ 98 ∷ [] ≡ t ++ 97 ∷ [])))
startswith-endswith_example = startswith-endswith (97 ∷ 98 ∷ []) (97 ∷ [])

-- "a,,b" at ","
split-joined_example :
    (ps : List (List ℕ)) × (split (97 ∷ 44 ∷ 44 ∷ 98 ∷ []) (44 ∷ []) false ≡ pieces ps)
    × AllLack 44 ps
    × ((joined 44 ps ≡ 97 ∷ 44 ∷ 44 ∷ 98 ∷ []) ⊎ (joined 44 ps ≡ 97 ∷ 44 ∷ 44 ∷ 98 ∷ 44 ∷ []))
split-joined_example =
    split-joined 44 (97 ∷ 44 ∷ 44 ∷ 98 ∷ [])
      (ground arith, (ground arith, (ground arith, (ground arith, tt))))

abbrev plain_types : LexTypes
plain_types = record {
  alpha = λ c. leb 97 c && leb c 122;
  alnum = λ c. leb 97 c && leb c 122;
  cntrl = λ c. ltb c 32;
}

-- `a<=>1`
abbrev compared : LexState (List ℕ)
compared = record {
  input = 97 ∷ 60 ∷ 61 ∷ 62 ∷ 49 ∷ [];
  current_line = 1;
  current_column = 0;
  token_line = 1;
  prev_token = 0;
  cur_token = 0;
  string_value = [];
  int_value = pos 0;
  float_value = none;
}

lex-Outcome_example : Outcome compared (lex as_bytes plain_types (λ l. none) 6 compared)
lex-Outcome_example = lex-Outcome as_bytes plain_types (λ l. none) 6 compared (omega arith)

abbrev ascii_print : ℕ → Bool
ascii_print c = leb 32 c && ltb c 127

ascii_print-IsAsciiPrint : IsAsciiPrint ascii_print
ascii_print-IsAsciiPrint c h = ground arith

-- `a"` and a line feed
string_loop-string_escape_example :
    (u : LexState (List ℕ)) × (string_loop 4 34 false [] (record compared {
      input = string_escape ascii_print (97 ∷ 34 ∷ 10 ∷ []) ++ (34 ∷ 59 ∷ []);
    })
      ≡ lexed ([] ++ 97 ∷ 34 ∷ 10 ∷ []) u)
    × (u.input ≡ 59 ∷ [])
string_loop-string_escape_example =
    string_loop-string_escape compared ascii_print 4 (97 ∷ 34 ∷ 10 ∷ []) [] (59 ∷ [])
      ascii_print-IsAsciiPrint (omega arith, (omega arith, (omega arith, tt))) (omega arith)
