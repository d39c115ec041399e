-- ===== src/FuncState/Merge.antt =====
-- What `AddInstruction` does to the emitted code.
use sqnim.FuncState.Code.{
  Instr, is_op, op_line, op_load, op_get, op_move, op_eq, op_ne, op_loadnulls, op_loadbool, op_jz,
  op_appendarray, op_cmp,
}
use sqnim.FuncState.Machine.{Calls, Frame, exec, exec_two}
use sqnim.FuncState.Optimize.{
  Agree, equal_Agree, dmove_same, dload_same, loadnulls_same, jcmp_Agree, getk_Agree, eq_Agree,
  ne_Agree, append_Agree,
}
use sqnim.FuncState.Moves.{Dropped, move_Agree}
use sqnim.FuncState.Peephole.{
  Emitter, Merged, into, after, instead, merge_compute, merge_move, merge_append, loads, is_value,
  append_type,
}
use sqnim.FuncState.{is_local, max_func_stacksize}
use sqnim.Prelude.Int.{ℤ, pos, ltb_ℤ, eqb_ℤ, ◌+ℤ◌}
use sqnim.Prelude.{
  ℕ, ◌<◌, ◌≡◌, ◌≢◌, ◌⊎◌, inl, inr, refl, ◌&&◌, ◌||◌, not, Bool, true, false, arith, ◌==◌,
  Bool-cases, Option-cases,
}
use sqnim.Table.{update}

-- How the compiler writes the operands of two instructions in a row: the operands that name
-- registers are bytes, and the temporary that the first one sets is only the operand of the second
-- one that the optimiser looks at.
pub record Emitted {V H : Type 0} (c : Calls V H) (p i : Instr) : Type 0 where
  pub reads : is_op op_get i ≡ true → (n : ℕ) × (i.arg1 ≡ pos n) × (n < 256) × (n ≢ p.arg0)
  pub move : is_op op_move i ≡ true → (n : ℕ) × (i.arg1 ≡ pos n) × (n < 256)
  pub load : is_op op_load i ≡ true → (n : ℕ) × (i.arg1 ≡ pos n)
  pub one_null : is_op op_loadnulls i ≡ true → i.arg1 ≡ pos 1
  pub nulls : is_op op_loadnulls p ≡ true → (n : ℕ) × (p.arg1 ≡ pos n)
  pub test : is_op op_jz i ≡ true → is_op op_cmp p ≡ true → i.arg0 ≡ p.arg0
  pub compared : is_op op_cmp p ≡ true → (n : ℕ) × (p.arg1 ≡ pos n)
  pub equal : is_op op_eq i ≡ true → (i.arg3 ≡ 0) × (i.arg2 ≢ p.arg0)
  pub unequal : is_op op_ne i ≡ true → (i.arg3 ≡ 0) × (i.arg2 ≢ p.arg0)
  pub appends : is_op op_appendarray i ≡ true → (i.arg2 ≡ 0) × (i.arg0 ≢ p.arg0)
  pub truth :
      is_op op_loadbool p ≡ true → c.raw_bool p.arg1 ≡ c.of_bool (not (eqb_ℤ p.arg1 (pos 0)))

pub and_true : (a b : Bool) → (a && b) ≡ true → (a ≡ true) × (b ≡ true)
and_true true b h = (refl, h)
and_true false b h = cc h

and_true3 : (a b c : Bool) → (a && b && c) ≡ true → (a ≡ true) × (b ≡ true) × (c ≡ true)
and_true3 a b c h =
    let (ab, hc) = and_true (a && b) c h in let (ha, hb) = and_true a b ab in (ha, hb, hc)

or_right : (a b : Bool) → (a || b) ≡ true → a ≡ false → b ≡ true
or_right true b h f = cc f
or_right false b h f = h

update_other : {V : Type 0} → (a j : ℕ) (v : V) (f : ℕ → V) → j ≢ a → f j ≡ update a v f j
update_other a j v f off = ground arith

below_byte : (a : ℤ) (n : ℕ) → ltb_ℤ a (pos 0xff) ≡ true → a ≡ pos n → n < 256
below_byte a n h e = ground (arith, e)

below_256 : (a : ℤ) (n : ℕ) → ltb_ℤ a (pos 256) ≡ true → a ≡ pos n → n < 256
below_256 a n h e = ground (arith, e)

pub equal_bytes : (a b : ℕ) → (a == b) ≡ true → a ≡ b
equal_bytes a b h = ground arith

module _ {V H : Type 0} (c : Calls V H) (e : Emitter) (p i : Instr) (m : Frame V H)
    (w : Emitted c p i) where
  abbrev pub Kept : Merged → Type 0
  Kept (into q b) = Agree p.arg0 (exec c q m) (exec_two c p i m) ⊎ Dropped c p i q m
  Kept (after q j) = (q ≡ p) × (j ≡ i)
  Kept (instead j) = (j ≡ i) × (is_op op_line i ≡ true) × (is_op op_line p ≡ true)

  merge_move-Kept : is_op op_move i ≡ true → Kept (merge_move e p i)
  unfolding merge_move
  merge_move-Kept mi = elim (Bool-cases (is_value p && eqb_ℤ (pos p.arg0) i.arg1)) [
    | inl hit ↦
        rw (merge_move, hit)
          (let (val, at) = and_true (is_value p) (eqb_ℤ (pos p.arg0) i.arg1) hit in
            move_Agree c p i m mi at val)
    | inr miss ↦ elim (Bool-cases (is_op op_move p)) [
      | inl mp ↦
          let (n, at, small) = w.move mi in
          rw (merge_move, miss, mp)
            (inl (equal_Agree c p i m p.arg0 _ _ (dmove_same c p i m n mi mp at small)))
      | inr other ↦ rw (merge_move, miss, other) (refl, refl)
    ]
  ]

  merge_append-Kept : is_op op_appendarray i ≡ true → Kept (merge_append e p i)
  unfolding merge_append
  merge_append-Kept ai = elim (Option-cases (append_type p)) [
    | inl e' ↦ rw (merge_append, e') (refl, refl)
    | inr (aat, e') ↦ elim (Bool-cases (loads e.func p i.arg1)) [
      | inr miss ↦ rw (merge_append, e', miss) (refl, refl)
      | inl hit ↦
          let (plain, apart) = w.appends ai in
          let (v, one, two) =
            append_Agree c p i m aat ai e'
              (and_true (eqb_ℤ (pos p.arg0) i.arg1) (not (is_local p.arg0 e.func)) hit).0 plain
              apart w.truth in
          rw (merge_append, e', hit)
            (inl (inr (_, _, one, two, refl, refl, λ j off. update_other p.arg0 j v m.regs off)))
    ]
  ]

  merge_equal-Kept :
      (is_op op_eq i || is_op op_ne i) ≡ true
      → is_op op_load p ≡ true
      → loads e.func p i.arg1 ≡ true
      → Agree p.arg0
          (exec c
            (record p { op = i.op; arg0 = i.arg0; arg2 = i.arg2; arg3 = max_func_stacksize })
            m)
          (exec_two c p i m)
  merge_equal-Kept ei lp at =
      let target_of = (and_true (eqb_ℤ (pos p.arg0) i.arg1) (not (is_local p.arg0 e.func)) at).0 in
      elim (Bool-cases (is_op op_eq i)) [
        | inl same ↦
            let (plain, apart) = w.equal same in eq_Agree c p i m same lp target_of plain apart
        | inr other ↦
            let differs : is_op op_ne i ≡ true =
              or_right (is_op op_eq i) (is_op op_ne i) ei other in
            let (plain, apart) = w.unequal differs in
            ne_Agree c p i m differs lp target_of plain apart
      ]

  abbrev compares : Bool
  compares = (is_op op_eq i || is_op op_ne i) && is_op op_load p && loads e.func p i.arg1

  compares-Kept :
      compares ≡ true
      → Agree p.arg0
          (exec c
            (record p { op = i.op; arg0 = i.arg0; arg2 = i.arg2; arg3 = max_func_stacksize })
            m)
          (exec_two c p i m)
  compares-Kept q =
      let (ei, lp, at) =
        and_true3 (is_op op_eq i || is_op op_ne i) (is_op op_load p) (loads e.func p i.arg1) q in
      merge_equal-Kept ei lp at

  abbrev jumps : Bool
  jumps = is_op op_jz i && is_op op_cmp p && ltb_ℤ p.arg1 (pos 0xff)

  abbrev gets : Bool
  gets = is_op op_get i && is_op op_load p && p.arg0 == i.arg2 && not (is_local p.arg0 e.func)

  abbrev two_loads : Bool
  two_loads = is_op op_load i && is_op op_load p && ltb_ℤ i.arg1 (pos 256)

  abbrev two_nulls : Bool
  two_nulls =
      is_op op_loadnulls i && is_op op_loadnulls p && eqb_ℤ (pos p.arg0 +ℤ p.arg1) (pos i.arg0)

  jumps-Kept : jumps ≡ true → Kept (merge_compute e p i)
  unfolding merge_compute
  jumps-Kept j =
      let (ji, cp, small) =
        and_true3 (is_op op_jz i) (is_op op_cmp p) (ltb_ℤ p.arg1 (pos 0xff)) j in
      let (n, at) = w.compared cp in
      rw (merge_compute, j)
        (inl (jcmp_Agree c p i m n ji cp at (below_byte p.arg1 n small at) (w.test ji cp)))

  gets-Kept : jumps ≡ false → gets ≡ true → Kept (merge_compute e p i)
  unfolding merge_compute
  gets-Kept j g =
      let (front, temp) =
        and_true (is_op op_get i && is_op op_load p && p.arg0 == i.arg2)
          (not (is_local p.arg0 e.func)) g in
      let (gi, lp, named) = and_true3 (is_op op_get i) (is_op op_load p) (p.arg0 == i.arg2) front in
      let (n, at, small, apart) = w.reads gi in
      rw (merge_compute, j, g)
        (inl (getk_Agree c p i m n gi lp (equal_bytes p.arg0 i.arg2 named) at small apart))

  two_loads-Kept :
      jumps ≡ false
      → gets ≡ false
      → is_op op_appendarray i ≡ false
      → is_op op_move i ≡ false
      → two_loads ≡ true
      → Kept (merge_compute e p i)
  unfolding merge_compute
  two_loads-Kept j g a v l =
      let (li, lp, small) =
        and_true3 (is_op op_load i) (is_op op_load p) (ltb_ℤ i.arg1 (pos 256)) l in
      let (n, at) = w.load li in
      rw (merge_compute, j, g, a, v, l)
        (inl (
          equal_Agree c p i m p.arg0 _ _
            (dload_same c p i m n li lp at (below_256 i.arg1 n small at))))

  two_nulls-Kept :
      two_nulls ≡ true
      → Agree p.arg0 (exec c (record p { arg1 = p.arg1 +ℤ pos 1 }) m) (exec_two c p i m)
  two_nulls-Kept z =
      let (ni, np, behind) =
        and_true3 (is_op op_loadnulls i) (is_op op_loadnulls p)
          (eqb_ℤ (pos p.arg0 +ℤ p.arg1) (pos i.arg0)) z in
      let (n, at) = w.nulls np in
      equal_Agree c p i m p.arg0 _ _ (loadnulls_same c p i m n ni np behind (w.one_null ni) at)

  pub merge_compute-Kept : Kept (merge_compute e p i)
  unfolding merge_compute
  merge_compute-Kept = elim (Bool-cases jumps) [
    | inl j ↦ jumps-Kept j
    | inr j ↦ elim (Bool-cases gets) [
      | inl g ↦ gets-Kept j g
      | inr g ↦ elim (Bool-cases (is_op op_appendarray i)) [
        | inl a ↦ rw (merge_compute, j, g, a) (merge_append-Kept a)
        | inr a ↦ elim (Bool-cases (is_op op_move i)) [
          | inl v ↦ rw (merge_compute, j, g, a, v) (merge_move-Kept v)
          | inr v ↦ elim (Bool-cases two_loads) [
            | inl l ↦ two_loads-Kept j g a v l
            | inr l ↦ elim (Bool-cases compares) [
              | inl q ↦ rw (merge_compute, j, g, a, v, l, q) (inl (compares-Kept q))
              | inr q ↦ elim (Bool-cases two_nulls) [
                | inl z ↦ rw (merge_compute, j, g, a, v, l, q, z) (inl (two_nulls-Kept z))
                | inr z ↦ rw (merge_compute, j, g, a, v, l, q, z) (refl, refl)
              ]
            ]
          ]
        ]
      ]
    ]
  ]
