-- ===== src/Tests/Interned.antt =====
-- The string table.
use sqnim.Prelude.{ℕ, ◌≡◌, refl, List, [], ◌∷◌, some, none, arith, if◌then◌else◌}
use sqnim.StringTable.Chains.{pushed-IsChains, pushed-held}
use sqnim.StringTable.Intern.{IsInterned, interned, add_string-interned, remove_string-interned}
use sqnim.StringTable.{
  SqString, StringTable, new_strings, find_string, add_string, remove_string, hash_str, slot_of,
  link_string,
}
use sqnim.Value.Compare.{eq_bytes}

abbrev letter : List ℕ
letter = 97 ∷ []

abbrev stored : SqString
stored = record { address = 7; val = letter; hash = hash_str letter }

abbrev one_string : StringTable
one_string = link_string stored (slot_of new_strings letter) new_strings

one_string-interned :
    (y : List ℕ) → interned one_string y ≡ (if eq_bytes y letter then some stored else none)
unfolding find_string
one_string-interned y = pushed-held 4 (λ i. []) stored refl refl y

one_string-IsInterned : IsInterned one_string
unfolding find_string
one_string-IsInterned = record {
  chains = pushed-IsChains 4 (λ i. []) stored refl refl (λ i hi. tt);
  slots = omega arith;
  room = omega arith;
}

only_stored :
    (y : List ℕ) (o : SqString) → interned one_string y ≡ some o → o.address ≡ 7 → o ≡ stored
only_stored y o e a = ground (arith, one_string-interned y)

add_string-interned_example :
    (t' : StringTable) × (s : SqString) × (add_string 8 (98 ∷ []) one_string ≡ (t', s))
    × (s.val ≡ 98 ∷ [])
    × IsInterned t'
    × ((y : List ℕ)
        → interned t' y ≡ (if eq_bytes y (98 ∷ []) then some s else interned one_string y))
    × ((other : SqString) → interned one_string (98 ∷ []) ≡ some other → s ≡ other)
    × ((again : ℕ) → add_string again (98 ∷ []) t' ≡ (t', s))
add_string-interned_example = add_string-interned 8 (98 ∷ []) one_string one_string-IsInterned

remove_string-interned_example :
    (t' : StringTable) × (remove_string stored one_string ≡ some t')
    × IsInterned t'
    × ((y : List ℕ) → interned t' y ≡ (if eq_bytes y letter then none else interned one_string y))
unfolding eq_bytes
remove_string-interned_example =
    remove_string-interned stored one_string one_string-IsInterned (one_string-interned letter)
      only_stored
