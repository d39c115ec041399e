-- ===== src/Value.antt =====
-- Values of the virtual machine: `SQObject` and its type tags (squirrel.h, sqobject.h).
-- Objects on the heap are seen as their kind and address; a string as its bytes, since the
-- string table shares one copy of each text.
pub mod Float
pub mod Arith
pub mod Compare
use sqnim.Prelude.{ℕ, ◌*◌, ◌/◌, ◌%◌, ◌≡◌, Bool, true, false, List, ◌==◌, if◌then◌else◌}
use sqnim.Prelude.Int.{ℤ}

-- the types whose value is an address
pub data Kind : Type 0 where
  table array user_data closure native_closure generator user_pointer thread func_proto class_object
        instance_object weak_ref outer :
      Kind

pub data Value (F : Type 0) : Type 0 where
  null_value : Value F
  integer : ℤ → Value F
  float : F → Value F
  boolean : Bool → Value F
  string : List ℕ → Value F
  object : Kind → ℕ → Value F

pub data ObjectType : Type 0 where
  ot_null ot_integer ot_float ot_bool ot_string : ObjectType
  ot_ref : Kind → ObjectType

unfoldable pub sq_type : {F : Type 0} → Value F → ObjectType
sq_type null_value = ot_null
sq_type (integer i) = ot_integer
sq_type (float f) = ot_float
sq_type (boolean b) = ot_bool
sq_type (string s) = ot_string
sq_type (object k p) = ot_ref k

-- SQOBJECT_NUMERIC and SQOBJECT_DELEGABLE
abbrev numeric_flag : ℕ
numeric_flag = 0x0400_0000

abbrev delegable_flag : ℕ
delegable_flag = 0x0200_0000

kind_code : Kind → ℕ
kind_code table = 0x0A00_0020
kind_code array = 0x0800_0040
kind_code user_data = 0x0A00_0080
kind_code closure = 0x0800_0100
kind_code native_closure = 0x0800_0200
kind_code generator = 0x0800_0400
kind_code user_pointer = 0x0000_0800
kind_code thread = 0x0800_1000
kind_code func_proto = 0x0800_2000
kind_code class_object = 0x0800_4000
kind_code instance_object = 0x0A00_8000
kind_code weak_ref = 0x0801_0000
kind_code outer = 0x0802_0000

-- `tagSQObjectType`
unfoldable pub type_code : ObjectType → ℕ
unfolding kind_code
type_code ot_null = 0x0500_0001
type_code ot_integer = 0x0500_0002
type_code ot_float = 0x0500_0004
type_code ot_bool = 0x0500_0008
type_code ot_string = 0x0800_0010
type_code (ot_ref k) = kind_code k

unfoldable pub is_numeric : {F : Type 0} → Value F → Bool
unfolding sq_type type_code
is_numeric v = type_code (sq_type v) / numeric_flag % 2 == 1

unfoldable pub is_delegable : {F : Type 0} → Value F → Bool
unfolding sq_type type_code
is_delegable v = type_code (sq_type v) / delegable_flag % 2 == 1

-- the type tags tell the kinds apart
unfoldable pub Kind_eq : Kind → Kind → Bool
unfolding kind_code
Kind_eq k j = kind_code k == kind_code j
