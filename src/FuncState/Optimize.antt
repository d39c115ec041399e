-- ===== src/FuncState/Optimize.antt =====
-- Each merge of the optimiser of `AddInstruction`, beside the two instructions run in a row.
use sqnim.FuncState.Code.{
  Instr, is_op, op_load, op_loadint, op_dload, op_getk, op_move, op_get, op_eq, op_ne, op_loadnulls,
  op_loadbool, op_dmove, op_jcmp, op_jz, op_appendarray, op_cmp,
}
use sqnim.FuncState.Machine.{
  Calls, Frame, exec, exec_other, exec_two, computes, load_nulls, target, branch,
}
use sqnim.FuncState.Patch.{to_byte}
use sqnim.FuncState.Peephole.{append_type}
use sqnim.FuncState.{max_func_stacksize}
use sqnim.Prelude.Int.{pos, eqb_ℤ, ◌+ℤ◌}
use sqnim.Prelude.{
  ℕ, suc, ◌+◌, ◌<◌, ◌≡◌, ◌≢◌, ◌⊎◌, inl, inr, refl, sym, ap, ◌∙◌, not, true, Option, none, some,
  arith, Bool-cases, Option-cases,
}
use sqnim.Table.{update}

-- both fail, or both end with the same heap, the same jump and the same registers but for `r`
abbrev pub Agree : {V H : Type 0} → ℕ → Option (Frame V H) → Option (Frame V H) → Type 0
Agree {V = V} {H = H} r a b =
    ((a ≡ none) × (b ≡ none))
    ⊎ ((m : Frame V H) × (n : Frame V H) × (a ≡ some m)
        × (b ≡ some n)
        × (m.heap ≡ n.heap)
        × (m.jump ≡ n.jump)
        × ((j : ℕ) → j ≢ r → m.regs j ≡ n.regs j))

-- what a byte keeps
to_byte_small : (n : ℕ) → n < 256 → to_byte (pos n) ≡ n
unfolding to_byte
to_byte_small n h = omega (arith, h)

module _ {V H : Type 0} (c : Calls V H) (p i : Instr) (m : Frame V H) where
  pub equal_Agree : (r : ℕ) (a b : Option (Frame V H)) → a ≡ b → Agree r a b
  equal_Agree r a none e = inl (e, refl)
  equal_Agree r a (some n) e = inr (n, n, e, refl, refl, refl, λ j h. refl)

  exec-computes :
      (q : Instr) (k : Frame V H) (o : Option (V × H))
      → computes c q k ≡ some o
      → exec c q k ≡ target c q.arg0 o k
  unfolding exec
  exec-computes q k o e = rw (exec, e) refl

  exec-none : (q : Instr) (k : Frame V H) → computes c q k ≡ none → exec c q k ≡ exec_other c q k
  unfolding exec
  exec-none q k e = rw (exec, e) refl

  pub dmove_same :
      (n : ℕ)
      → is_op op_move i ≡ true
      → is_op op_move p ≡ true
      → i.arg1 ≡ pos n
      → n < 256
      → exec c (record p { op = op_dmove; arg2 = i.arg0; arg3 = to_byte i.arg1 }) m
        ≡ exec_two c p i m
  unfolding exec computes exec_other
  dmove_same n mi mp at small = ground (arith, to_byte_small n)

  pub dload_same :
      (n : ℕ)
      → is_op op_load i ≡ true
      → is_op op_load p ≡ true
      → i.arg1 ≡ pos n
      → n < 256
      → exec c (record p { op = op_dload; arg2 = i.arg0; arg3 = to_byte i.arg1 }) m
        ≡ exec_two c p i m
  unfolding exec computes exec_other
  dload_same n mi mp at small = ground (arith, to_byte_small n)

  exec_nulls :
      (q : Instr) (k : Frame V H) (n : ℕ)
      → is_op op_loadnulls q ≡ true
      → q.arg1 ≡ pos n
      → exec c q k
        ≡ some (record { regs = load_nulls c q.arg0 n k.regs; heap = k.heap; jump = pos 0 })
  unfolding exec computes exec_other
  exec_nulls q k n op at = ground arith

  nulls_step :
      (a n : ℕ) (regs : ℕ → V)
      → load_nulls c (a + n) 1 (load_nulls c a n regs) ≡ load_nulls c a (n + 1) regs
  unfolding load_nulls
  nulls_step a n regs =
      let more : n + 1 ≡ suc n = omega arith in
      let same : a + n + 0 ≡ a + n = omega arith in rw (more, same) refl

  pub loadnulls_same :
      (n : ℕ)
      → is_op op_loadnulls i ≡ true
      → is_op op_loadnulls p ≡ true
      → eqb_ℤ (pos p.arg0 +ℤ p.arg1) (pos i.arg0) ≡ true
      → i.arg1 ≡ pos 1
      → p.arg1 ≡ pos n
      → exec c (record p { arg1 = p.arg1 +ℤ pos 1 }) m ≡ exec_two c p i m
  unfolding ◌+ℤ◌
  loadnulls_same n ni np at one some_n =
      let next : i.arg0 ≡ p.arg0 + n = ground (arith, at, some_n) in
      let more : p.arg1 +ℤ pos 1 ≡ pos (n + 1) = ground (arith, some_n) in
      let first = exec_nulls p m n np some_n in
      let two : exec_two c p i m
          ≡ exec c i (record { regs = load_nulls c p.arg0 n m.regs; heap = m.heap; jump = pos 0 }) =
        rw (exec_two, first) refl in
      let second =
        exec_nulls i (record { regs = load_nulls c p.arg0 n m.regs; heap = m.heap; jump = pos 0 }) 1
          ni one in
      exec_nulls (record p { arg1 = p.arg1 +ℤ pos 1 }) m (n + 1) np more
      ∙ ap (λ r. some (record { regs = r; heap = m.heap; jump = pos 0 }))
          (sym (nulls_step p.arg0 n m.regs)
            ∙ ap (λ a. load_nulls c a 1 (load_nulls c p.arg0 n m.regs)) (sym next))
      ∙ sym (two ∙ second)

  pub jcmp_Agree :
      (n : ℕ)
      → is_op op_jz i ≡ true
      → is_op op_cmp p ≡ true
      → p.arg1 ≡ pos n
      → n < 256
      → i.arg0 ≡ p.arg0
      → Agree p.arg0
          (exec c (record p { op = op_jcmp; arg0 = to_byte p.arg1; arg1 = i.arg1 }) m)
          (exec_two c p i m)
  unfolding exec computes exec_other
  jcmp_Agree n ji cp at small same =
      elim (Option-cases (c.compare p.arg3 (m.regs p.arg2) (m.regs n) m.heap)) [
        | inl e ↦ inl (ground (arith, to_byte_small n), ground arith)
        | inr ((v, h), e) ↦ inr (
          branch c i.arg1 v h m,
          branch c i.arg1 v h (record { regs = update p.arg0 v m.regs; heap = h; jump = pos 0 }),
          ground (arith, to_byte_small n),
          ground arith,
          refl,
          refl,
          λ j off. ground arith,
        )
      ]

  pub getk_Agree :
      (n : ℕ)
      → is_op op_get i ≡ true
      → is_op op_load p ≡ true
      → p.arg0 ≡ i.arg2
      → i.arg1 ≡ pos n
      → n < 256
      → n ≢ p.arg0
      → Agree p.arg0
          (exec c (record p { op = op_getk; arg0 = i.arg0; arg2 = to_byte i.arg1 }) m)
          (exec_two c p i m)
  unfolding exec computes exec_other
  getk_Agree n gi lp at named small apart =
      elim (Option-cases (c.get_slot n (m.regs n) (c.literal p.arg1) m.heap)) [
        | inl e ↦ inl (ground (arith, to_byte_small n), ground arith)
        | inr ((v, h), e) ↦ inr (
          record { regs = update i.arg0 v m.regs; heap = h; jump = pos 0 },
          record {
            regs = update i.arg0 v (update p.arg0 (c.literal p.arg1) m.regs);
            heap = h;
            jump = pos 0;
          },
          ground (arith, to_byte_small n),
          ground arith,
          refl,
          refl,
          λ j off. ground arith,
        )
      ]

  pub eq_Agree :
      is_op op_eq i ≡ true
      → is_op op_load p ≡ true
      → eqb_ℤ (pos p.arg0) i.arg1 ≡ true
      → i.arg3 ≡ 0
      → i.arg2 ≢ p.arg0
      → Agree p.arg0
          (exec c
            (record p { op = i.op; arg0 = i.arg0; arg2 = i.arg2; arg3 = max_func_stacksize })
            m)
          (exec_two c p i m)
  unfolding exec computes exec_other
  eq_Agree ei lp at plain apart =
      let v : V = c.of_bool (c.equal_values (m.regs i.arg2) (c.literal p.arg1)) in
      inr (
        record { regs = update i.arg0 v m.regs; heap = m.heap; jump = pos 0 },
        record {
          regs = update i.arg0 v (update p.arg0 (c.literal p.arg1) m.regs);
          heap = m.heap;
          jump = pos 0;
        },
        ground arith,
        ground arith,
        refl,
        refl,
        λ j off. ground arith,
      )

  pub ne_Agree :
      is_op op_ne i ≡ true
      → is_op op_load p ≡ true
      → eqb_ℤ (pos p.arg0) i.arg1 ≡ true
      → i.arg3 ≡ 0
      → i.arg2 ≢ p.arg0
      → Agree p.arg0
          (exec c
            (record p { op = i.op; arg0 = i.arg0; arg2 = i.arg2; arg3 = max_func_stacksize })
            m)
          (exec_two c p i m)
  unfolding exec computes exec_other
  ne_Agree ei lp at plain apart =
      let v : V = c.of_bool (not (c.equal_values (m.regs i.arg2) (c.literal p.arg1))) in
      inr (
        record { regs = update i.arg0 v m.regs; heap = m.heap; jump = pos 0 },
        record {
          regs = update i.arg0 v (update p.arg0 (c.literal p.arg1) m.regs);
          heap = m.heap;
          jump = pos 0;
        },
        ground arith,
        ground arith,
        refl,
        refl,
        λ j off. ground arith,
      )

  pub append_Agree :
      (aat : ℕ)
      → is_op op_appendarray i ≡ true
      → append_type p ≡ some aat
      → eqb_ℤ (pos p.arg0) i.arg1 ≡ true
      → i.arg2 ≡ 0
      → i.arg0 ≢ p.arg0
      → (is_op op_loadbool p ≡ true → c.raw_bool p.arg1 ≡ c.of_bool (not (eqb_ℤ p.arg1 (pos 0))))
      → (v : V) × (exec c
            (record p { op = op_appendarray; arg0 = i.arg0; arg2 = aat; arg3 = max_func_stacksize })
            m
          ≡ some (record {
            regs = m.regs;
            heap = c.append_value (m.regs i.arg0) v m.heap;
            jump = pos 0;
          }))
        × (exec_two c p i m
            ≡ some (record {
              regs = update p.arg0 v m.regs;
              heap = c.append_value (m.regs i.arg0) v m.heap;
              jump = pos 0;
            }))
  unfolding exec computes exec_other
  append_Agree aat ai ty at plain apart bools = elim (Bool-cases (is_op op_load p)) [
    | inl lit ↦ (c.literal p.arg1, ground arith, ground arith)
    | inr no_lit ↦ elim (Bool-cases (is_op op_loadint p)) [
      | inl int ↦ (c.of_int p.arg1, ground arith, ground arith)
      | inr no_int ↦ elim (Bool-cases (is_op op_loadbool p)) [
        | inl bool ↦ (c.raw_bool p.arg1, ground arith, ground (arith, bools bool))
        | inr no_bool ↦ (c.of_float p.arg1, ground arith, ground arith)
      ]
    ]
  ]
