-- ===== src/Strings/Affix.antt =====
-- Prefixes and suffixes.
use sqnim.Prelude.{
  ℕ, zero, suc, subst, ◌-◌, ◌≡◌, ◌↔◌, refl, sym, ap, ◌∙◌, true, List, [], ◌∷◌, ◌++◌, arith, length,
  take, drop, length-append, leb,
}
use sqnim.Strings.{startswith, endswith}
use sqnim.Value.Compare.{eq_bytes}

pub eq_bytes_sound : (s t : List ℕ) → eq_bytes s t ≡ true → s ≡ t
unfolding eq_bytes
eq_bytes_sound [] [] h = refl
eq_bytes_sound [] (d ∷ t) h = cc
eq_bytes_sound (c ∷ s) [] h = cc
eq_bytes_sound (c ∷ s) (d ∷ t) h = ground (arith, eq_bytes_sound s t)

pub eq_bytes_refl : (s : List ℕ) → eq_bytes s s ≡ true
unfolding eq_bytes
eq_bytes_refl [] = refl
eq_bytes_refl (c ∷ s) = ground (arith, eq_bytes_refl s)

take-drop : (n : ℕ) (s : List ℕ) → take n s ++ drop n s ≡ s
take-drop zero s = refl
take-drop (suc n) [] = refl
take-drop (suc n) (c ∷ s) = ap (◌∷◌ c) (take-drop n s)

take-append : (s t : List ℕ) → take (length s) (s ++ t) ≡ s
take-append [] t = refl
take-append (c ∷ s) t = ap (◌∷◌ c) (take-append s t)

drop-append : (s t : List ℕ) → drop (length s) (s ++ t) ≡ t
drop-append [] t = refl
drop-append (c ∷ s) t = drop-append s t

startswith-append : (p t : List ℕ) → startswith (p ++ t) p ≡ true
unfolding startswith
startswith-append p t =
    let fits : leb (length p) (length (p ++ t)) ≡ true = ground (arith, length-append p t) in
    rw (fits, take-append p t) (eq_bytes_refl p)

endswith-append : (p t : List ℕ) → endswith (t ++ p) p ≡ true
unfolding endswith
endswith-append p t =
    let fits : leb (length p) (length (t ++ p)) ≡ true = ground (arith, length-append t p) in
    let from : length (t ++ p) - length p ≡ length t = omega (arith, length-append t p) in
    rw (fits, from, drop-append t p) (eq_bytes_refl p)

startswith_split : (s p : List ℕ) → startswith s p ≡ true → (t : List ℕ) × (s ≡ p ++ t)
unfolding startswith
startswith_split s p h =
    let n = length p in
    let same : eq_bytes (take n s) p ≡ true = ground arith in
    (drop n s, sym (take-drop n s) ∙ ap (λ q. q ++ drop n s) (eq_bytes_sound (take n s) p same))

endswith_split : (s p : List ℕ) → endswith s p ≡ true → (t : List ℕ) × (s ≡ t ++ p)
unfolding endswith
endswith_split s p h =
    let n = length s - length p in
    let same : eq_bytes (drop n s) p ≡ true = ground arith in
    (take n s, sym (take-drop n s) ∙ ap (λ q. take n s ++ q) (eq_bytes_sound (drop n s) p same))

-- A string starts with another exactly if that followed by something is the string, and ends with
-- it exactly if something followed by that is the string.
pub startswith-endswith :
    (s p : List ℕ)
    → ((startswith s p ≡ true) ↔ ((t : List ℕ) × (s ≡ p ++ t)))
      × ((endswith s p ≡ true) ↔ ((t : List ℕ) × (s ≡ t ++ p)))
startswith-endswith s p = (
  (
    startswith_split s p,
    λ w. subst (λ u. startswith u p ≡ true) (sym w.1) (startswith-append p w.0),
  ),
  (endswith_split s p, λ w. subst (λ u. endswith u p ≡ true) (sym w.1) (endswith-append p w.0)),
)
