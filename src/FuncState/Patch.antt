-- ===== src/FuncState/Patch.antt =====
-- Changes of emitted instructions and reads of the target stack: `SetInstructionParams`,
-- `SetInstructionParam`, `GetUpTarget` and `TopTarget` (sqfuncstate.cpp).
use sqnim.FuncState.Code.{Instr}
use sqnim.FuncState.{FuncState}
use sqnim.Prelude.Int.{ℤ, pos, negsuc}
use sqnim.Prelude.{ℕ, ◌-◌, ◌%◌, Option, none, some, get_elem?, set, ltb, ◌==◌, ◌||◌, if◌then◌else◌}
use sqnim.Word.{to_word}

-- the conversions to `unsigned char` and to `SQInt32`
unfoldable pub to_byte : ℤ → ℕ
unfolding to_word
to_byte i = to_word i % 0x100

unfoldable pub to_int32 : ℤ → ℤ
unfolding to_word
to_int32 i =
    let w = to_word i % 0x1_0000_0000 in
    if ltb w 0x8000_0000 then pos w else negsuc (0xffff_ffff - w)

abbrev update : ℕ → (Instr → Instr) → FuncState → FuncState
update at change s = elim (get_elem? s.instructions at) [
  | none ↦ s
  | some i ↦ record s { instructions = set s.instructions at (change i) }
]

unfoldable pub set_instruction_params : ℕ → ℤ → ℤ → ℤ → ℤ → FuncState → FuncState
unfolding to_byte to_int32
set_instruction_params at a0 a1 a2 a3 s =
    update at
      (λ i. record i {
        arg0 = to_byte a0;
        arg1 = to_int32 a1;
        arg2 = to_byte a2;
        arg3 = to_byte a3;
      })
      s

-- the number of the argument, of which 4 is another name of 1; any other changes nothing
unfoldable pub set_instruction_param : ℕ → ℕ → ℤ → FuncState → FuncState
unfolding to_byte to_int32
set_instruction_param at arg v s =
    update at
      (λ i.
        if arg == 0
        then record i { arg0 = to_byte v }
        else if arg == 1 || arg == 4
        then record i { arg1 = to_int32 v }
        else if arg == 2
        then record i { arg2 = to_byte v }
        else if arg == 3
        then record i { arg3 = to_byte v }
        else i)
      s

-- the target stack has its top first
unfoldable pub get_up_target : ℕ → FuncState → Option ℕ
get_up_target n s = get_elem? s.targets n

unfoldable pub top_target : FuncState → Option ℕ
top_target s = get_elem? s.targets 0
