-- ===== src/FuncState/Moves.antt =====
-- The optimiser's change of the target of an instruction that a move follows.
use sqnim.FuncState.Code.{Instr, is_op, op_move, op_mod}
use sqnim.FuncState.Machine.{Calls, Frame, exec, exec_mod, exec_other, exec_two, computes, stack}
use sqnim.FuncState.Peephole.{is_value}
use sqnim.Prelude.Int.{pos, pos_part, eqb_ℤ}
use sqnim.Prelude.{◌≡◌, ◌⊎◌, inl, inr, refl, ap, ◌∙◌, true, Option, none, some, arith, Option-cases}
use sqnim.Table.{update}
use sqnim.FuncState.Optimize.{Agree}

-- The first instruction is a modulo that fails, which is no exception. The merged instruction leaves
-- the registers; in a row, the second instruction copies what the first one's target held before.
abbrev pub Dropped : {V H : Type 0} → Calls V H → Instr → Instr → Instr → Frame V H → Type 0
Dropped {V = V} {H = H} c p i q m =
    (is_op op_mod p ≡ true)
    × (h : H) × (c.modulo (m.regs p.arg2) (stack c m p.arg1) m.heap ≡ (none, h))
    × (exec c q m ≡ some (record { regs = m.regs; heap = h; jump = pos 0 }))
    × (exec_two c p i m
        ≡ some (record { regs = update i.arg0 (m.regs p.arg0) m.regs; heap = h; jump = pos 0 }))

module _ {V H : Type 0} (c : Calls V H) (p i : Instr) (m : Frame V H) where
  exec_move :
      (k : Frame V H)
      → is_op op_move i ≡ true
      → exec c i k
        ≡ some
            (record { regs = update i.arg0 (stack c k i.arg1) k.regs; heap = k.heap; jump = pos 0 })
  unfolding exec computes
  exec_move k mi = ground arith

  mod_only : is_value p ≡ true → computes c p m ≡ none → is_op op_mod p ≡ true
  unfolding computes
  mod_only val e = ground arith

  mod_other :
      (q : Instr) (h : H) (o : Option V)
      → is_op op_mod q ≡ true
      → c.modulo (m.regs q.arg2) (stack c m q.arg1) m.heap ≡ (o, h)
      → exec c q m
        ≡ some (record {
          regs = elim o [ none ↦ m.regs | some v ↦ update q.arg0 v m.regs ];
          heap = h;
          jump = pos 0;
        })
  unfolding exec computes exec_other exec_mod
  mod_other q h o op e =
      let none_of : computes c q m ≡ none = ground arith in
      let other : exec_other c q m ≡ exec_mod c q m = ground arith in
      rw (exec, none_of, other, exec_mod, e) refl

  -- what the instruction whose target the move changes does
  value_cases :
      is_value p ≡ true
      → ((exec c (record p { arg0 = i.arg0 }) m ≡ none) × (exec c p m ≡ none))
        ⊎ ((v : V) × (h : H) × (exec c (record p { arg0 = i.arg0 }) m
              ≡ some (record { regs = update i.arg0 v m.regs; heap = h; jump = pos 0 }))
            × (exec c p m
                ≡ some (record { regs = update p.arg0 v m.regs; heap = h; jump = pos 0 })))
        ⊎ ((is_op op_mod p ≡ true)
            × (h : H) × (c.modulo (m.regs p.arg2) (stack c m p.arg1) m.heap ≡ (none, h))
            × (exec c (record p { arg0 = i.arg0 }) m
                ≡ some (record { regs = m.regs; heap = h; jump = pos 0 }))
            × (exec c p m ≡ some (record { regs = m.regs; heap = h; jump = pos 0 })))
  unfolding exec computes exec_other
  value_cases val = elim (Option-cases (computes c p m)) [
    | inl e ↦
        let op = mod_only val e in
        let h : H = (c.modulo (m.regs p.arg2) (stack c m p.arg1) m.heap).1 in
        elim (Option-cases (c.modulo (m.regs p.arg2) (stack c m p.arg1) m.heap).0) [
          | inl f ↦
              let both = ap (λ o. (o, h)) f in
              inr (
                inr (
                  op,
                  h,
                  both,
                  mod_other (record p { arg0 = i.arg0 }) h none op both,
                  mod_other p h none op both,
                ))
          | inr (v, f) ↦
              let both = ap (λ o. (o, h)) f in
              inr (
                inl (
                  v,
                  h,
                  mod_other (record p { arg0 = i.arg0 }) h (some v) op both,
                  mod_other p h (some v) op both,
                ))
        ]
    | inr (none, e) ↦ inl (rw (exec, e) refl, rw (exec, e) refl)
    | inr (some (v, h), e) ↦ inr (inl (v, h, rw (exec, e) refl, rw (exec, e) refl))
  ]

  pub move_Agree :
      is_op op_move i ≡ true
      → eqb_ℤ (pos p.arg0) i.arg1 ≡ true
      → is_value p ≡ true
      → Agree p.arg0 (exec c (record p { arg0 = i.arg0 }) m) (exec_two c p i m)
        ⊎ Dropped c p i (record p { arg0 = i.arg0 }) m
  move_Agree mi at val = elim (value_cases val) [
    | inl (e, f) ↦ inl (inl (e, rw (exec_two, f) refl))
    | inr (inr (op, h, failed, e, f)) ↦
        let same : pos_part i.arg1 ≡ p.arg0 = ground (arith, at) in
        inr (
          op,
          h,
          failed,
          e,
          rw (exec_two, f)
              (exec_move (record { regs = m.regs; heap = h; jump = pos 0 }) mi ∙ rw same refl),
        )
    | inr (inl (v, h, e, f)) ↦
        let same : pos_part i.arg1 ≡ p.arg0 = ground (arith, at) in
        inl (
          inr (
            record { regs = update i.arg0 v m.regs; heap = h; jump = pos 0 },
            record { regs = update i.arg0 v (update p.arg0 v m.regs); heap = h; jump = pos 0 },
            e,
            rw (exec_two, f)
                (exec_move (record { regs = update p.arg0 v m.regs; heap = h; jump = pos 0 }) mi
                  ∙ ground (arith, same)),
            refl,
            refl,
            λ j off. ground arith,
          ))
  ]
