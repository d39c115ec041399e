-- ===== src/FuncState/Emit.antt =====
-- `AddInstruction` on the emitted code.
use sqnim.FuncState.Code.{Instr, is_op, op_line}
use sqnim.FuncState.Machine.{Calls, Frame, exec, exec_two}
use sqnim.FuncState.Merge.{Emitted}
use sqnim.FuncState.Optimize.{Agree}
use sqnim.FuncState.Moves.{Dropped}
use sqnim.FuncState.Peephole.{Emitter, Merged, into, after, instead}
use sqnim.Prelude.{◌≡◌, ◌⊎◌, true}

-- the new instruction writes back a register that it takes its value from
abbrev pub WritesBack : Instr → Type 0
WritesBack i = (i.arg0 ≡ i.arg3) ⊎ (i.arg0 ≡ i.arg2)

module _ {V H : Type 0} (c : Calls V H) (e : Emitter) (p i : Instr) (m : Frame V H)
    (w : Emitted c p i) where
  abbrev Outcome : Merged → Type 0
  Outcome (into q b) = Agree p.arg0 (exec c q m) (exec_two c p i m) ⊎ Dropped c p i q m
  Outcome (after q j) = (q ≡ p) × ((j ≡ i) ⊎ ((j ≡ record i { arg0 = 0xff }) × WritesBack i))
  Outcome (instead j) = (j ≡ i) × (is_op op_line i ≡ true) × (is_op op_line p ≡ true)
