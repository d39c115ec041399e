-- ===== src/FuncState/Registers.antt =====
-- The discipline of the registers and of the target stack.
use sqnim.FuncState.{
  Local, temporary, max_func_stacksize, FuncState, ok, alloc_stack_pos, push_target, pop_target,
  register, find_local, get_local_variable, mark_at, mark_local_as_outer, is_marked, count_outers,
  close_local, close_locals, set_stack_size, has_name,
}
use sqnim.Prelude.{
  ℕ, suc, ◌+◌, ◌-◌, ◌≤◌, ◌<◌, ◌≡◌, ◌≢◌, refl, ap, sym, ◌∙◌, true, false, none, some, List, [], ◌∷◌,
  arith, length, drop, if◌then◌else◌, leb, ◌==◌, inl, inr, Bool-cases, some-injective, subst,
}

-- Pushing a fresh target and popping it gives back the registers and the targets; the target is
-- the first register above those in use.
pub pop_target-push_target :
    (s t : FuncState) (n : ℕ)
    → push_target none s ≡ ok (t, n)
    → (n ≡ length s.vlocals)
      × (u : FuncState) × (pop_target t ≡ some (u, n))
      × (u.vlocals ≡ s.vlocals)
      × (u.targets ≡ s.targets)
unfolding push_target pop_target
pop_target-push_target s t n h =
    (ground arith, record t { vlocals = s.vlocals; targets = s.targets }, ground arith, refl, refl)

-- a register without a name is no captured local
abbrev pub MarksNamed : List Local → Type 0
MarksNamed [] = Unit {0}
MarksNamed (v ∷ l) = (v.name ≡ none → is_marked v ≡ false) × MarksNamed l

-- the marked registers
abbrev pub marks : List Local → ℕ
marks l = count_outers 0 l

close_local_lem :
    (v : Local) (l : List Local) (s : FuncState)
    → (v.name ≡ none → is_marked v ≡ false)
    → ((close_local v l s).outers ≡ s.outers - (if is_marked v then 1 else 0))
      × ((close_local v l s).vlocals ≡ l)
unfolding close_local
close_local_lem v l s m = ground arith

close_locals-outers :
    (n : ℕ) (l : List Local) (s : FuncState)
    → MarksNamed l
    → count_outers n l ≤ s.outers
    → (close_locals n l s).outers + count_outers n l ≡ s.outers
unfolding close_locals count_outers
close_locals-outers n [] s m h = omega arith
close_locals-outers n (v ∷ l) s (mv, ml) h =
    ground (arith, close_local_lem v l s mv, close_locals-outers n l (close_local v l s) ml)

nothing_less : (n : ℕ) → 0 - n ≡ 0
nothing_less n = omega arith

close_local_rest : (v : Local) (l : List Local) (s : FuncState) → (close_local v l s).vlocals ≡ l
unfolding close_local
close_local_rest v l s = ground arith

drop_none : (n : ℕ) → drop {A = Local} (0 - n) [] ≡ []
drop_none n = ap (λ k. drop {A = Local} k []) (nothing_less n)

drop_all :
    (n : ℕ) (v : Local) (l : List Local)
    → leb n (length l) ≡ false
    → drop (length (v ∷ l) - n) (v ∷ l) ≡ v ∷ l
drop_all n v l h =
    let none_left : suc (length l) - n ≡ 0 = ground arith in ap (λ k. drop k (v ∷ l)) none_left

drop_more :
    (n : ℕ) (v : Local) (l : List Local)
    → leb n (length l) ≡ true
    → drop (length (v ∷ l) - n) (v ∷ l) ≡ drop (length l - n) l
drop_more n v l h =
    let one_more : suc (length l) - n ≡ suc (length l - n) = ground arith in
    ap (λ k. drop k (v ∷ l)) one_more

close_locals-vlocals :
    (n : ℕ) (l : List Local) (s : FuncState)
    → s.vlocals ≡ l
    → (close_locals n l s).vlocals ≡ drop (length l - n) l
unfolding close_locals
close_locals-vlocals n [] s e = e ∙ sym (drop_none n)
close_locals-vlocals n (v ∷ l) s e = ground (
  arith,
  e,
  close_local_rest v l s,
  close_locals-vlocals n l (close_local v l s) (close_local_rest v l s),
  drop_all n v l,
  drop_more n v l,
)

-- Provided that no unnamed register is marked as captured and that the count of captured locals
-- covers the marks, leaving a scope drops exactly the registers from `n` on, and lowers the count
-- by the number that `CountOuters` gives for them.
pub set_stack_size_lem :
    (n : ℕ) (s : FuncState)
    → MarksNamed s.vlocals
    → count_outers n s.vlocals ≤ s.outers
    → ((set_stack_size n s).vlocals ≡ drop (length s.vlocals - n) s.vlocals)
      × ((set_stack_size n s).outers + count_outers n s.vlocals ≡ s.outers)
unfolding set_stack_size
set_stack_size_lem n s m h =
    (close_locals-vlocals n s.vlocals s refl, close_locals-outers n s.vlocals s m h)

length-mark_at : (p : ℕ) (l : List Local) → length (mark_at p l) ≡ length l
unfolding mark_at
length-mark_at p [] = refl
length-mark_at p (v ∷ l) = ap suc (length-mark_at p l)

mark_at_above : (p : ℕ) (l : List Local) → length l ≤ p → mark_at p l ≡ l
unfolding mark_at
mark_at_above p [] h = refl
mark_at_above p (v ∷ l) h = ground (arith, mark_at_above p l)

marks-mark_at : (p : ℕ) (l : List Local) → marks (mark_at p l) ≤ marks l + 1
unfolding mark_at count_outers
marks-mark_at p [] = omega arith
marks-mark_at p (v ∷ l) = ground (arith, marks-mark_at p l, mark_at_above p l)

MarksNamed-mark_at :
    (p : ℕ) (l : List Local) (v : Local)
    → register p l ≡ some v
    → v.name ≢ none
    → MarksNamed l
    → MarksNamed (mark_at p l)
unfolding mark_at register
MarksNamed-mark_at p [] v at named m = m
MarksNamed-mark_at p (x ∷ l) v at named (mx, ml) = elim (Bool-cases (p == length l)) [
  | inl here ↦
      let same : some x ≡ some v = ground arith in
      let x_named : x.name ≢ none =
        subst (λ u. u.name ≢ none) (sym (some-injective x v same)) named in
      (ground arith, subst MarksNamed (sym (mark_at_above p l (ground arith))) ml)
  | inr below ↦
      let found : register p l ≡ some v = ground arith in
      (ground arith, MarksNamed-mark_at p l v found named ml)
]

-- Marking a named register as captured keeps two facts: no unnamed register is marked, and the
-- count of captured locals is at least the number of marks.
pub mark_local_as_outer_lem :
    (p : ℕ) (s : FuncState) (v : Local)
    → register p s.vlocals ≡ some v
    → v.name ≢ none
    → MarksNamed s.vlocals
    → marks s.vlocals ≤ s.outers
    → MarksNamed (mark_local_as_outer p s).vlocals
      × (marks (mark_local_as_outer p s).vlocals ≤ (mark_local_as_outer p s).outers)
unfolding mark_local_as_outer
mark_local_as_outer_lem p s v found named m h =
    (MarksNamed-mark_at p s.vlocals v found named m, ground (arith, marks-mark_at p s.vlocals))

find_local_sound :
    (name : List ℕ) (l : List Local) (p : ℕ)
    → find_local name l ≡ some p
    → (v : Local) × (register p l ≡ some v) × (has_name name v ≡ true) × (p < length l)
unfolding find_local register
find_local_sound name [] p h = cc
find_local_sound name (v ∷ l) p h = elim (Bool-cases (has_name name v)) [
  | inl has ↦ (v, ground arith, ground arith, ground arith)
  | inr lacks ↦
      let found : find_local name l ≡ some p = ground arith in
      let (w, at, named, below) = find_local_sound name l p found in
      (w, ground arith, ground arith, ground arith)
]

-- a register is one of those in use
register_bound : (p : ℕ) (l : List Local) (v : Local) → register p l ≡ some v → p < length l
unfolding register
register_bound p [] v h = cc
register_bound p (x ∷ l) v h = ground (arith, register_bound p l v)

find_local-last :
    (name : List ℕ) (l : List Local) (p q : ℕ) (w : Local)
    → find_local name l ≡ some p
    → p < q
    → register q l ≡ some w
    → has_name name w ≡ false
unfolding find_local register
find_local-last name [] p q w h lt at = cc
find_local-last name (v ∷ l) p q w h lt at = elim (Bool-cases (has_name name v)) [
  | inl has ↦ ground (arith, register_bound q l w)
  | inr lacks ↦ ground (arith, find_local-last name l p q w)
]

find_local-none :
    (name : List ℕ) (l : List Local) (q : ℕ) (w : Local)
    → find_local name l ≡ none
    → register q l ≡ some w
    → has_name name w ≡ false
unfolding find_local register
find_local-none name [] q w h at = cc
find_local-none name (v ∷ l) q w h at = elim (Bool-cases (has_name name v)) [
  | inl has ↦ ground arith
  | inr lacks ↦ ground (arith, find_local-none name l q w)
]

-- A lookup that succeeds gives a register of that name, and a named or unnamed register after it
-- does not have the name: of two locals of one name the inner one is found.
pub get_local_variable_found :
    (name : List ℕ) (s : FuncState) (p q : ℕ) (w : Local)
    → get_local_variable name s ≡ some p
    → p < q
    → register q s.vlocals ≡ some w
    → ((v : Local) × (register p s.vlocals ≡ some v) × (has_name name v ≡ true))
      × (has_name name w ≡ false)
unfolding get_local_variable
get_local_variable_found name s p q w h lt at =
    let (v, found, named, below) = find_local_sound name s.vlocals p h in
    ((v, found, named), find_local-last name s.vlocals p q w h lt at)

-- A lookup fails only if no register has the name.
pub get_local_variable_missing :
    (name : List ℕ) (s : FuncState) (q : ℕ) (w : Local)
    → get_local_variable name s ≡ none
    → register q s.vlocals ≡ some w
    → has_name name w ≡ false
unfolding get_local_variable
get_local_variable_missing name s q w h at = find_local-none name s.vlocals q w h at

-- The check for too many registers comes one late: whenever 255 registers are in use, and never
-- were more, the next one is allocated, and its number is the one that stands for "no register".
pub alloc_stack_pos_late :
    (s : FuncState)
    → length s.vlocals ≡ 255
    → s.stacksize ≤ 255
    → (t : FuncState) × (alloc_stack_pos s ≡ ok (t, max_func_stacksize))
unfolding alloc_stack_pos
alloc_stack_pos_late s h k =
    (record s { vlocals = temporary ∷ s.vlocals; stacksize = 256 }, ground arith)
