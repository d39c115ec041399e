-- ===== src/Proto/Save.antt =====
-- `SQFunctionProto::Save` and `SQClosure::Save` (sqobject.cpp).
use sqnim.Prelude.Int.{pos}
use sqnim.Prelude.{ℕ, suc, List, [], ◌∷◌, ◌++◌, length, if◌then◌else◌}
use sqnim.Proto.Writing.{
  Writer, done, ◌>>◌, safe_write, write_word, write_integer, write_tag, write_all, write_object,
  FloatBytes,
}
use sqnim.Proto.{
  ProtoOuter, ProtoLocal, ProtoLine, ProtoCode, ProtoParts, FuncProto, FuncProtos, proto, no_proto,
  next_proto,
}
use sqnim.Stream.{to_bytes, encode_int}

-- SQ_CLOSURESTREAM_HEAD, SQ_CLOSURESTREAM_PART, SQ_CLOSURESTREAM_TAIL
abbrev pub stream_head : ℕ
stream_head = 0x5351_4952

abbrev pub stream_part : ℕ
stream_part = 0x5041_5254

abbrev pub stream_tail : ℕ
stream_tail = 0x5441_494c

unfoldable pub write_count : ℕ → Writer
unfolding write_integer
write_count n = write_integer (pos n)

unfoldable pub write_line : ProtoLine → Writer
unfolding write_integer ◌>>◌
write_line l = do write_integer l.line_number; write_integer l.line_op

unfoldable pub write_code : ProtoCode → Writer
unfolding safe_write write_word ◌>>◌ to_bytes
write_code i = do
  safe_write (encode_int 4 i.code_arg1)
  write_word 1 i.code_op
  write_word 1 i.code_arg0
  write_word 1 i.code_arg2
  write_word 1 i.code_arg3

unfoldable pub count_protos : {F : Type 0} → FuncProtos F → ℕ
count_protos no_proto = 0
count_protos (next_proto f l) = suc (count_protos l)

unfoldable pub write_counts : {F : Type 0} → ProtoParts F → ℕ → Writer
unfolding write_count ◌>>◌
write_counts p functions = do
  write_count (length p.literals)
  write_count (length p.proto_parameters)
  write_count (length p.outer_values)
  write_count (length p.local_infos)
  write_count (length p.line_infos)
  write_count (length p.default_params)
  write_count (length p.proto_code)
  write_count functions

unfoldable pub write_last : {F : Type 0} → ProtoParts F → Writer
unfolding write_integer write_word ◌>>◌
write_last p = do
  write_integer p.stack_size
  write_word 1 (if p.is_generator then 1 else 0)
  write_integer p.var_params

-- The memory behind the type of each captured variable, which nobody sets: a function is found by
-- its places in the functions around it, the variable by its place in the function.
abbrev pub Paddings : Type 0
Paddings = List ℕ → ℕ → List ℕ

-- the memory of the functions inside the one at this place
abbrev pub inner_paddings : Paddings → ℕ → Paddings
inner_paddings paddings i path = paddings (i ∷ path)

module _ {F : Type 0} (floats : FloatBytes F) where
  -- eight bytes from the address of a type that has four: `padding` is what follows it
  unfoldable pub write_outer : List ℕ → ProtoOuter F → Writer
  unfolding safe_write write_object ◌>>◌ to_bytes
  write_outer padding o = do
    safe_write (to_bytes 4 o.outer_kind ++ padding)
    write_object floats o.outer_src
    write_object floats o.outer_name

  unfoldable pub write_outers : (ℕ → List ℕ) → ℕ → List (ProtoOuter F) → Writer
  unfolding write_outer done ◌>>◌
  write_outers padding i [] = done
  write_outers padding i (o ∷ l) = do write_outer (padding i) o; write_outers padding (suc i) l

  unfoldable pub write_local : ProtoLocal F → Writer
  unfolding write_object write_word ◌>>◌
  write_local v = do
    write_object floats v.local_name
    write_word 8 v.local_pos
    write_word 8 v.local_start
    write_word 8 v.local_end

  unfoldable pub write_vectors : (ℕ → List ℕ) → ProtoParts F → Writer
  unfolding write_tag write_all write_object write_outers write_local write_line write_integer
      write_code ◌>>◌
  write_vectors padding p = do
    write_tag stream_part
    write_all (write_object floats) p.literals
    write_tag stream_part
    write_all (write_object floats) p.proto_parameters
    write_tag stream_part
    write_outers padding 0 p.outer_values
    write_tag stream_part
    write_all write_local p.local_infos
    write_tag stream_part
    write_all write_line p.line_infos
    write_tag stream_part
    write_all write_integer p.default_params
    write_tag stream_part
    write_all write_code p.proto_code
    write_tag stream_part

  unfoldable mutual
    unfolding write_tag write_object write_counts write_vectors write_last count_protos done ◌>>◌

    pub save : Paddings → FuncProto F → Writer
    save paddings (proto p functions) = do
      write_tag stream_part
      write_object floats p.source_name
      write_object floats p.proto_name
      write_tag stream_part
      write_counts p (count_protos functions)
      write_vectors (paddings []) p
      save_functions paddings 0 functions
      write_last p

    pub save_functions : Paddings → ℕ → FuncProtos F → Writer
    save_functions paddings i no_proto = done
    save_functions paddings i (next_proto f l) = do
      save (inner_paddings paddings i) f
      save_functions paddings (suc i) l

  unfoldable pub save_closure : Paddings → FuncProto F → Writer
  unfolding write_tag save ◌>>◌
  save_closure paddings f = do
    write_tag stream_head
    write_tag 1
    write_tag 8
    write_tag floats.float_size
    save paddings f
    write_tag stream_tail
