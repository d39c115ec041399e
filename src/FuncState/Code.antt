-- ===== src/FuncState/Code.antt =====
-- `SQInstruction` and the opcodes (sqopcodes.h).
use sqnim.Prelude.{ℕ, Bool, ◌==◌}
use sqnim.Prelude.Int.{ℤ}

pub data Opcode : Type 0 where
  op_line op_load op_loadint op_loadfloat op_dload op_tailcall op_call op_prepcall op_prepcallk
        op_getk op_move op_newslot op_delete op_set op_get op_eq op_ne op_add op_sub op_mul op_div
        op_mod op_bitw op_return op_loadnulls op_loadroot op_loadbool op_dmove op_jmp op_jcmp op_jz
        op_setouter op_getouter op_newobj op_appendarray op_comparith op_inc op_incl op_pinc
        op_pincl op_cmp op_exists op_instanceof op_and op_or op_neg op_not op_bwnot op_closure
        op_yield op_resume op_foreach op_postforeach op_clone op_typeof op_pushtrap op_poptrap
        op_throw op_newslota op_getbase op_close :
      Opcode

-- `arg0`, `arg2` and `arg3` are bytes, `arg1` is a signed 32-bit number
pub record Instr : Type 0 where
  pub op : Opcode
  pub arg0 : ℕ
  pub arg1 : ℤ
  pub arg2 : ℕ
  pub arg3 : ℕ

-- the numbers of the opcodes
abbrev pub code : Opcode → ℕ
code op_line = 0x00
code op_load = 0x01
code op_loadint = 0x02
code op_loadfloat = 0x03
code op_dload = 0x04
code op_tailcall = 0x05
code op_call = 0x06
code op_prepcall = 0x07
code op_prepcallk = 0x08
code op_getk = 0x09
code op_move = 0x0a
code op_newslot = 0x0b
code op_delete = 0x0c
code op_set = 0x0d
code op_get = 0x0e
code op_eq = 0x0f
code op_ne = 0x10
code op_add = 0x11
code op_sub = 0x12
code op_mul = 0x13
code op_div = 0x14
code op_mod = 0x15
code op_bitw = 0x16
code op_return = 0x17
code op_loadnulls = 0x18
code op_loadroot = 0x19
code op_loadbool = 0x1a
code op_dmove = 0x1b
code op_jmp = 0x1c
code op_jcmp = 0x1d
code op_jz = 0x1e
code op_setouter = 0x1f
code op_getouter = 0x20
code op_newobj = 0x21
code op_appendarray = 0x22
code op_comparith = 0x23
code op_inc = 0x24
code op_incl = 0x25
code op_pinc = 0x26
code op_pincl = 0x27
code op_cmp = 0x28
code op_exists = 0x29
code op_instanceof = 0x2a
code op_and = 0x2b
code op_or = 0x2c
code op_neg = 0x2d
code op_not = 0x2e
code op_bwnot = 0x2f
code op_closure = 0x30
code op_yield = 0x31
code op_resume = 0x32
code op_foreach = 0x33
code op_postforeach = 0x34
code op_clone = 0x35
code op_typeof = 0x36
code op_pushtrap = 0x37
code op_poptrap = 0x38
code op_throw = 0x39
code op_newslota = 0x3a
code op_getbase = 0x3b
code op_close = 0x3c

abbrev pub is_op : Opcode → Instr → Bool
is_op o i = code i.op == code o
