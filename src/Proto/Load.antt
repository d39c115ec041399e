-- ===== src/Proto/Load.antt =====
-- `SQFunctionProto::Load` and `SQClosure::Load` (sqobject.cpp).
use sqnim.Prelude.Int.{pos}
use sqnim.Prelude.{ℕ, zero, suc, ◌%◌, true, false, not, ◌==◌}
use sqnim.Proto.Reading.{
  Reader, give, stop, ◌>>=◌, ◌>>◌, read_word, read_integer, read_count, check_tag, read_all,
  read_object,
}
use sqnim.Proto.Save.{stream_head, stream_part, stream_tail}
use sqnim.Proto.Writing.{FloatBytes}
use sqnim.Proto.{
  ProtoOuter, ProtoLocal, ProtoLine, ProtoCode, ProtoParts, FuncProto, FuncProtos, proto, no_proto,
  next_proto,
}
use sqnim.Stream.{decode_int}
use sqnim.Value.{Value}

unfoldable pub read_line : Reader ProtoLine
unfolding read_integer give ◌>>=◌
read_line = do n ← read_integer; op ← read_integer; give (record { line_number = n; line_op = op })

unfoldable pub read_code : Reader ProtoCode
unfolding read_word decode_int give ◌>>=◌
read_code = do
  w ← read_word 4
  op ← read_word 1
  a0 ← read_word 1
  a2 ← read_word 1
  a3 ← read_word 1
  give (record {
    code_arg1 = decode_int true 4 w;
    code_op = op;
    code_arg0 = a0;
    code_arg2 = a2;
    code_arg3 = a3;
  })

-- the numbers that `Load` reads first
pub record Counts : Type 0 where
  pub n_literals : ℕ
  pub n_parameters : ℕ
  pub n_outers : ℕ
  pub n_locals : ℕ
  pub n_lines : ℕ
  pub n_defaults : ℕ
  pub n_code : ℕ
  pub n_functions : ℕ

unfoldable pub read_counts : Reader Counts
unfolding read_count give ◌>>=◌
read_counts = do
  literals ← read_count
  parameters ← read_count
  outers ← read_count
  locals ← read_count
  lines ← read_count
  defaults ← read_count
  codes ← read_count
  functions ← read_count
  give (record {
    n_literals = literals;
    n_parameters = parameters;
    n_outers = outers;
    n_locals = locals;
    n_lines = lines;
    n_defaults = defaults;
    n_code = codes;
    n_functions = functions;
  })

-- the loop over the functions inside, which `read` loads
unfoldable pub read_functions : {F : Type 0} → Reader (FuncProto F) → ℕ → Reader (FuncProtos F)
unfolding give ◌>>=◌
read_functions read zero = give no_proto
read_functions read (suc n) = do f ← read; l ← read_functions read n; give (next_proto f l)

unfoldable pub read_last : {F : Type 0} → ProtoParts F → FuncProtos F → Reader (FuncProto F)
unfolding read_integer read_word give ◌>>=◌
read_last p functions = do
  size ← read_integer
  generator ← read_word 1
  params ← read_integer
  give (
      proto
        (record p { stack_size = size; is_generator = not (generator == 0); var_params = params })
        functions)

module _ {F : Type 0} (floats : FloatBytes F) where
  -- the cast to `SQOuterType` keeps the low half
  unfoldable pub read_outer : Reader (ProtoOuter F)
  unfolding read_word read_object give ◌>>=◌
  read_outer = do
    type ← read_word 8
    src ← read_object floats
    name ← read_object floats
    give (record { outer_kind = type % 0x1_0000_0000; outer_src = src; outer_name = name })

  unfoldable pub read_local : Reader (ProtoLocal F)
  unfolding read_word read_object give ◌>>=◌
  read_local = do
    name ← read_object floats
    place ← read_word 8
    start ← read_word 8
    end ← read_word 8
    give (record { local_name = name; local_pos = place; local_start = start; local_end = end })

  -- the vectors, for a function with these names; the fields of `_stacksize` on come later
  unfoldable pub read_vectors : Value F → Value F → Counts → Reader (ProtoParts F)
  unfolding read_all read_outer read_local read_line read_integer read_code check_tag read_object
      give ◌>>=◌
  read_vectors source name n = do
    check_tag stream_part
    ls ← read_all (read_object floats) n.n_literals
    check_tag stream_part
    ps ← read_all (read_object floats) n.n_parameters
    check_tag stream_part
    os ← read_all read_outer n.n_outers
    check_tag stream_part
    vs ← read_all read_local n.n_locals
    check_tag stream_part
    ns ← read_all read_line n.n_lines
    check_tag stream_part
    ds ← read_all read_integer n.n_defaults
    check_tag stream_part
    cs ← read_all read_code n.n_code
    check_tag stream_part
    give (record {
      source_name = source;
      proto_name = name;
      literals = ls;
      proto_parameters = ps;
      outer_values = os;
      local_infos = vs;
      line_infos = ns;
      default_params = ds;
      proto_code = cs;
      stack_size = pos 0;
      is_generator = false;
      var_params = pos 0;
    })

  -- the fuel is how deep functions stand in functions
  unfoldable pub load : ℕ → Reader (FuncProto F)
  unfolding check_tag read_object read_counts read_vectors read_functions read_last stop ◌>>=◌
  load zero = stop
  load (suc f) = do
    check_tag stream_part
    source ← read_object floats
    name ← read_object floats
    check_tag stream_part
    n ← read_counts
    p ← read_vectors source name n
    functions ← read_functions (load f) n.n_functions
    read_last p functions

  unfoldable pub load_closure : ℕ → Reader (FuncProto F)
  unfolding check_tag load give ◌>>=◌
  load_closure f = do
    check_tag stream_head
    check_tag 1
    check_tag 8
    check_tag floats.float_size
    p ← load f
    check_tag stream_tail
    give p
