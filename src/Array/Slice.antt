-- ===== src/Array/Slice.antt =====
-- `get_slice_params`, `array_slice` and `string_slice` (sqbaselib.cpp).
use sqnim.Array.{wrong_indexes, slice_out_of_range, Result, ok, err, create}
use sqnim.Prelude.Int.{ℤ, pos, negsuc, ltb_ℤ, ◌+ℤ◌, pos_part}
use sqnim.Prelude.{
  ℕ, zero, suc, ◌+◌, ◌-◌, ◌≤◌, ◌<◌, ◌≡◌, refl, ap, ◌∙◌, Bool, true, false, ◌&&◌, ◌||◌, take_all,
  get_elem?_in, append_assoc, append-nil, not, Option, none, some, List, [], ◌∷◌, ◌++◌, map, arith,
  length, get_elem?, set, take, drop, length-set, if◌then◌else◌,
}
use sqnim.Value.Compare.{read_int}
use sqnim.Value.Float.{FloatOps}
use sqnim.Value.{Value, null_value, float, is_numeric}
use sqnim.Vector.Capacity.{size-resize}
use sqnim.Vector.{Vector, size, empty}

module _ (ops : FloatOps) where
  -- `tointeger`
  unfoldable pub to_integer : Value ops.F → ℤ
  unfolding read_int
  to_integer (float f) = ops.to_int f
  to_integer v = read_int ops v

  abbrev is_null : Value ops.F → Bool
  is_null null_value = true
  is_null _ = false

  -- the arguments that are on the stack above `this`; null has the numeric flag and counts as a
  -- number for the end
  unfoldable pub get_slice_params : Option (Value ops.F) → Option (Value ops.F) → ℕ → ℤ × ℤ
  unfolding to_integer is_numeric
  get_slice_params start end n = (
    elim start [
      | none ↦ pos 0
      | some v ↦ if not (is_null v) && is_numeric v then to_integer v else pos 0
    ],
    elim end [ none ↦ pos n | some v ↦ if is_numeric v then to_integer v else pos 0 ],
  )

-- the checks that both slices share; a negative index counts from the end
unfoldable pub slice_bounds : ℕ → ℤ → ℤ → Result (ℕ × ℕ)
unfolding ◌+ℤ◌
slice_bounds n s e =
    let sidx = if ltb_ℤ s (pos 0) then pos n +ℤ s else s in
    let eidx = if ltb_ℤ e (pos 0) then pos n +ℤ e else e in
    if ltb_ℤ eidx sidx
    then err wrong_indexes
    else if ltb_ℤ (pos n) eidx || ltb_ℤ sidx (pos 0)
    then err slice_out_of_range
    else ok (pos_part sidx, pos_part eidx)

module _ {A : Type 0} (real : A → A) where
  -- `for (i = sidx; i < eidx; i++) { Get(i, t); arr->Set(count++, t); }`, with `k` rounds left
  unfoldable pub slice_loop : ℕ → ℕ → ℕ → A → List A → List A → List A
  slice_loop zero i count t source dest = dest
  slice_loop (suc k) i count t source dest =
      let t' : A = elim (get_elem? source i) [ none ↦ t | some a ↦ real a ] in
      slice_loop k (suc i) (suc count) t' source (set dest count t')

  unfoldable pub array_slice : A → ℤ → ℤ → Vector A → Result (Vector A)
  unfolding slice_bounds slice_loop create size
  array_slice def s e v = elim (slice_bounds (size v) s e) [
    | err x ↦ err x
    | ok (sidx, eidx) ↦
        let arr = create (eidx - sidx) def in
        ok (record arr { items = slice_loop (eidx - sidx) sidx 0 def v.items arr.items })
  ]

-- `SQString::Create(&str[sidx], eidx - sidx)`
unfoldable pub string_slice : ℤ → ℤ → List ℕ → Result (List ℕ)
unfolding slice_bounds
string_slice s e str = elim (slice_bounds (length str) s e) [
  | err x ↦ err x
  | ok (sidx, eidx) ↦ ok (take (eidx - sidx) (drop sidx str))
]

-- Where the bounds are accepted they are the arguments, counted from the end if negative; they
-- are in order and within the size.
pub slice_bounds-ok :
    (n : ℕ) (s e : ℤ) {a b : ℕ}
    → slice_bounds n s e ≡ ok (a, b)
    → (a ≤ b)
      × (b ≤ n)
      × (pos a ≡ (if ltb_ℤ s (pos 0) then pos n +ℤ s else s))
      × (pos b ≡ (if ltb_ℤ e (pos 0) then pos n +ℤ e else e))
unfolding slice_bounds
slice_bounds-ok n (pos s) (pos e) h = ground arith
slice_bounds-ok n (pos s) (negsuc e) h = ground arith
slice_bounds-ok n (negsuc s) (pos e) h = ground arith
slice_bounds-ok n (negsuc s) (negsuc e) h = ground arith

module _ {A : Type 0} (real : A → A) where
  take-suc-set :
      (c : ℕ) (l : List A) (x : A) → c < length l → take (suc c) (set l c x) ≡ take c l ++ x ∷ []
  take-suc-set c [] x h = absurd (omega arith)
  take-suc-set zero (y ∷ l) x h = refl
  take-suc-set (suc c) (y ∷ l) x h = ap (◌∷◌ y) (take-suc-set c l x (omega arith))

  drop-get : (l : List A) (i : ℕ) (a : A) → get_elem? l i ≡ some a → drop i l ≡ a ∷ drop (suc i) l
  drop-get [] i a h = cc
  drop-get (x ∷ l) zero a h = ground arith
  drop-get (x ∷ l) (suc i) a h = drop-get l i a h

  slice_loop_lem :
      (k i count : ℕ) (t : A) (source dest : List A)
      → i + k ≤ length source
      → count + k ≡ length dest
      → slice_loop real k i count t source dest
        ≡ take count dest ++ map real (take k (drop i source))
  unfolding slice_loop
  slice_loop_lem zero i count t source dest h e = rw (take_all count dest (omega arith), append-nil)
  slice_loop_lem (suc k) i count t source dest h e =
      let (a, found) = get_elem?_in source i (omega arith) in
      rw (found, drop-get source i a found)
        (slice_loop_lem k (suc i) (suc count) (real a) source (set dest count (real a))
            (omega arith) (omega (arith, length-set dest count (real a)))
          ∙ rw (take-suc-set count dest (real a) (omega arith)) (
              append_assoc (take count dest) (real a ∷ [])
                (map real (take k (drop (suc i) source)))))

  -- With accepted bounds the slice succeeds and holds the elements from the first bound up to the
  -- second, in order, with weak references followed.
  pub array_slice_lem :
      (def : A) (s e : ℤ) (v : Vector A) {a b : ℕ}
      → slice_bounds (size v) s e ≡ ok (a, b)
      → (w : Vector A) × (array_slice real def s e v ≡ ok w)
        × (w.items ≡ map real (take (b - a) (drop a v.items)))
  unfolding array_slice
  array_slice_lem def s e v {a} {b} h =
      let arr = create (b - a) def in
      let (ab, bn, _, _) = slice_bounds-ok (size v) s e h in
      let full : 0 + (b - a) ≡ length arr.items = omega (arith, size-resize (b - a) def empty) in
      (
        record arr { items = slice_loop real (b - a) a 0 def v.items arr.items },
        rw (h, array_slice),
        slice_loop_lem (b - a) a 0 def v.items arr.items (omega arith) full,
      )
