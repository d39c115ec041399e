-- ===== src/Proto.antt =====
-- `SQFunctionProto` (sqfuncproto.h), and how it and a closure are saved and loaded (sqobject.cpp).
pub mod Writing
pub mod Reading
pub mod Save
pub mod Load
pub mod Stored
pub mod Items
pub mod Fields
pub mod Closure
pub mod Lines
use sqnim.Prelude.{ℕ, Bool, List}
use sqnim.Prelude.Int.{ℤ}
use sqnim.Value.{Value}

-- `SQOuterVar`; the kind is the number of the `SQOuterType`
pub record ProtoOuter (F : Type 0) : Type 0 where
  pub outer_kind : ℕ
  pub outer_src : Value F
  pub outer_name : Value F

-- `SQLocalVarInfo`
pub record ProtoLocal (F : Type 0) : Type 0 where
  pub local_name : Value F
  pub local_pos : ℕ
  pub local_start : ℕ
  pub local_end : ℕ

-- `SQLineInfo`
pub record ProtoLine : Type 0 where
  pub line_number : ℤ
  pub line_op : ℤ

-- `SQInstruction` as it stands in memory, the opcode by its number
pub record ProtoCode : Type 0 where
  pub code_arg1 : ℤ
  pub code_op : ℕ
  pub code_arg0 : ℕ
  pub code_arg2 : ℕ
  pub code_arg3 : ℕ

-- a function without the functions inside it
pub record ProtoParts (F : Type 0) : Type 0 where
  pub source_name : Value F
  pub proto_name : Value F
  pub literals : List (Value F)
  pub proto_parameters : List (Value F)
  pub outer_values : List (ProtoOuter F)
  pub local_infos : List (ProtoLocal F)
  pub line_infos : List ProtoLine
  pub default_params : List ℤ
  pub proto_code : List ProtoCode
  pub stack_size : ℤ
  pub is_generator : Bool
  pub var_params : ℤ

mutual
  pub data FuncProto (F : Type 0) : Type 0 where
    proto : ProtoParts F → FuncProtos F → FuncProto F

  -- `_functions`
  pub data FuncProtos (F : Type 0) : Type 0 where
    no_proto : FuncProtos F
    next_proto : FuncProto F → FuncProtos F → FuncProtos F
