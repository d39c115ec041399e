-- ===== src/Proto/Fields.antt =====
-- The fields and vectors of a function in a closure's stream.
use sqnim.Prelude.Int.{pos}
use sqnim.Prelude.{
  ℕ, suc, ◌*◌, ◌%◌, ◌<◌, ◌≡◌, refl, ap, Bool, true, false, not, List, [], ◌∷◌, ◌++◌, length, arith,
  ◌==◌, length-append, if◌then◌else◌,
}
use sqnim.Proto.Items.{
  Each, IsStorable, Stored-word, Stored-integer, Stored-arg1, Stored-count, Stored-tag, Stored-all,
  object-Stored,
}
use sqnim.Proto.Load.{
  read_line, read_code, Counts, read_counts, read_outer, read_local, read_vectors, read_last,
}
use sqnim.Proto.Reading.{give, read_word, read_all, read_object}
use sqnim.Proto.Save.{
  stream_part, write_line, write_code, write_outer, write_outers, write_local, write_counts,
  write_vectors, write_last,
}
use sqnim.Proto.Stored.{Stored, Stored-seq, Stored-give, Stored-done, Stored-bytes}
use sqnim.Proto.Writing.{safe_write, write_object, FloatBytes}
use sqnim.Proto.{ProtoOuter, ProtoLocal, ProtoLine, ProtoCode, ProtoParts, FuncProtos, proto}
use sqnim.Stream.Numbers.{Fits, int_word, length-to_bytes}
use sqnim.Stream.{to_bytes, of_bytes, patterns}
use sqnim.Value.{Value}

-- fields that hold what their types can hold
abbrev pub LineFits : ProtoLine → Type 0
LineFits l = Fits true 8 l.line_number × Fits true 8 l.line_op

abbrev pub CodeFits : ProtoCode → Type 0
CodeFits i =
    Fits true 4 i.code_arg1
    × (i.code_op < patterns 1)
    × (i.code_arg0 < patterns 1)
    × (i.code_arg2 < patterns 1)
    × (i.code_arg3 < patterns 1)

abbrev pub OuterFits : {F : Type 0} → ProtoOuter F → Type 0
OuterFits o = (o.outer_kind < patterns 4) × IsStorable o.outer_src × IsStorable o.outer_name

abbrev pub LocalFits : {F : Type 0} → ProtoLocal F → Type 0
LocalFits v =
    IsStorable v.local_name
    × (v.local_pos < patterns 8)
    × (v.local_start < patterns 8)
    × (v.local_end < patterns 8)

-- a function whose fields and vectors fit their types
pub record PartsFit {F : Type 0} (p : ProtoParts F) : Type 0 where
  pub source : IsStorable p.source_name
  pub name : IsStorable p.proto_name
  pub literals : Each IsStorable p.literals
  pub parameters : Each IsStorable p.proto_parameters
  pub outers : Each OuterFits p.outer_values
  pub locals : Each LocalFits p.local_infos
  pub lines : Each LineFits p.line_infos
  pub defaults : Each (Fits true 8) p.default_params
  pub codes : Each CodeFits p.proto_code
  pub stack_fits : Fits true 8 p.stack_size
  pub var : Fits true 8 p.var_params
  pub n_literals : 2 * length p.literals < patterns 8
  pub n_parameters : 2 * length p.proto_parameters < patterns 8
  pub n_outers : 2 * length p.outer_values < patterns 8
  pub n_locals : 2 * length p.local_infos < patterns 8
  pub n_lines : 2 * length p.line_infos < patterns 8
  pub n_defaults : 2 * length p.default_params < patterns 8
  pub n_code : 2 * length p.proto_code < patterns 8

abbrev pub counts_of : {F : Type 0} → ProtoParts F → ℕ → Counts
counts_of p functions = record {
  n_literals = length p.literals;
  n_parameters = length p.proto_parameters;
  n_outers = length p.outer_values;
  n_locals = length p.local_infos;
  n_lines = length p.line_infos;
  n_defaults = length p.default_params;
  n_code = length p.proto_code;
  n_functions = functions;
}

each : {A : Type 0} {P Q : A → Type 0} → ((x : A) → P x → Q x) → (l : List A) → Each P l → Each Q l
each f [] h = tt
each f (x ∷ l) (p, h) = (f x p, each f l h)

flag_fits : (b : Bool) → (if b then 1 else 0) < patterns 1
flag_fits true = omega arith
flag_fits false = omega arith

flag_back : (b : Bool) → not ((if b then 1 else 0) == 0) ≡ b
flag_back true = refl
flag_back false = refl

line-Stored : (l : ProtoLine) → LineFits l → Stored (write_line l) read_line l
unfolding write_line read_line
line-Stored l (n, op) =
    Stored-seq _ (Stored-integer l.line_number n) (Stored-give _ (Stored-integer l.line_op op) refl)

code-Stored : (i : ProtoCode) → CodeFits i → Stored (write_code i) read_code i
unfolding write_code read_code
code-Stored i (a1, op, a0, a2, a3) = Stored-seq _ (Stored-arg1 i.code_arg1 a1) (
    Stored-seq _ (Stored-word 1 i.code_op op) (
      Stored-seq _ (Stored-word 1 i.code_arg0 a0) (
        Stored-seq _ (Stored-word 1 i.code_arg2 a2) (
          Stored-give _ (Stored-word 1 i.code_arg3 a3)
            (ap (λ a. give (record i { code_arg1 = a })) (int_word i.code_arg1 a1))))))

Stored-read : (l : List ℕ) (n : ℕ) → length l ≡ n → Stored (safe_write l) (read_word n) (of_bytes l)
unfolding read_word
Stored-read l n e = Stored-give _ (Stored-bytes l n e) refl

outer_width : (k : ℕ) (l : List ℕ) → length l ≡ 4 → length (to_bytes 4 k ++ l) ≡ 8
outer_width k l e = ground (arith, e, length-append (to_bytes 4 k) l, length-to_bytes 4 k)

low_half : (k : ℕ) (l : List ℕ) → k < patterns 4 → of_bytes (to_bytes 4 k ++ l) % 0x1_0000_0000 ≡ k
unfolding to_bytes of_bytes
low_half k l h = omega (arith, h)

module _ {F : Type 0} (floats : FloatBytes F)
    (sized : (f : F) → length (floats.float_to f) ≡ floats.float_size)
    (back : (f : F) → floats.float_of (floats.float_to f) ≡ f) where
  outer-Stored :
      (padding : List ℕ) (o : ProtoOuter F)
      → length padding ≡ 4
      → OuterFits o
      → Stored (write_outer floats padding o) (read_outer floats) o
  unfolding write_outer read_outer
  outer-Stored padding o padded (k, s, n) =
      let width : length (to_bytes 4 o.outer_kind ++ padding) ≡ 8 =
        outer_width o.outer_kind padding padded in
      Stored-seq _ (Stored-read (to_bytes 4 o.outer_kind ++ padding) 8 width) (
        Stored-seq _ (object-Stored floats sized back o.outer_src s) (
          Stored-give _ (object-Stored floats sized back o.outer_name n)
            (ap (λ t. give (record o { outer_kind = t })) (low_half o.outer_kind padding k))))

  outers-Stored :
      (padding : ℕ → List ℕ) (i : ℕ) (l : List (ProtoOuter F))
      → ((j : ℕ) → length (padding j) ≡ 4)
      → Each OuterFits l
      → Stored (write_outers floats padding i l) (read_all (read_outer floats) (length l)) l
  unfolding write_outers read_all
  outers-Stored padding i [] padded h = Stored-done []
  outers-Stored padding i (o ∷ l) padded (w, h) =
      Stored-seq _ (outer-Stored (padding i) o (padded i) w)
        (Stored-give _ (outers-Stored padding (suc i) l padded h) refl)

  local-Stored :
      (v : ProtoLocal F) → LocalFits v → Stored (write_local floats v) (read_local floats) v
  unfolding write_local read_local
  local-Stored v (n, p, s, e) = Stored-seq _ (object-Stored floats sized back v.local_name n) (
      Stored-seq _ (Stored-word 8 v.local_pos p) (
        Stored-seq _ (Stored-word 8 v.local_start s)
          (Stored-give _ (Stored-word 8 v.local_end e) refl)))

  values-Stored :
      (l : List (Value F))
      → Each IsStorable l
      → Each (λ v. Stored (write_object floats v) (read_object floats) v) l
  values-Stored l w = each (object-Stored floats sized back) l w

  -- the vectors of a function, which the loop over functions follows
  pub vectors-Stored :
      (padding : ℕ → List ℕ) (p : ProtoParts F) (functions : ℕ)
      → ((i : ℕ) → length (padding i) ≡ 4)
      → PartsFit p
      → Stored
          (write_vectors floats padding p)
          (read_vectors floats p.source_name p.proto_name (counts_of p functions))
          (record p { stack_size = pos 0; is_generator = false; var_params = pos 0 })
  unfolding write_vectors read_vectors
  vectors-Stored padding p functions padded w =
      let tag = Stored-tag stream_part (omega arith) in
      Stored-seq _ tag (
        Stored-seq _ (Stored-all _ _ p.literals (values-Stored p.literals w.literals)) (
          Stored-seq _ tag (
            Stored-seq _
              (Stored-all _ _ p.proto_parameters (values-Stored p.proto_parameters w.parameters))
              (Stored-seq _ tag (
                Stored-seq _ (outers-Stored padding 0 p.outer_values padded w.outers) (
                  Stored-seq _ tag (
                    Stored-seq _
                      (Stored-all _ _ p.local_infos (each local-Stored p.local_infos w.locals))
                      (Stored-seq _ tag (
                        Stored-seq _
                          (Stored-all _ _ p.line_infos (each line-Stored p.line_infos w.lines))
                          (Stored-seq _ tag (
                            Stored-seq _
                              (Stored-all _ _ p.default_params
                                (each Stored-integer p.default_params w.defaults))
                              (Stored-seq _ tag (
                                Stored-seq _
                                  (Stored-all _ _ p.proto_code
                                    (each code-Stored p.proto_code w.codes))
                                  (Stored-give _ tag refl))))))))))))))

  pub counts-Stored :
      (p : ProtoParts F) (functions : ℕ)
      → PartsFit p
      → 2 * functions < patterns 8
      → Stored (write_counts p functions) read_counts (counts_of p functions)
  unfolding write_counts read_counts
  counts-Stored p functions w h = Stored-seq _ (Stored-count (length p.literals) w.n_literals) (
      Stored-seq _ (Stored-count (length p.proto_parameters) w.n_parameters) (
        Stored-seq _ (Stored-count (length p.outer_values) w.n_outers) (
          Stored-seq _ (Stored-count (length p.local_infos) w.n_locals) (
            Stored-seq _ (Stored-count (length p.line_infos) w.n_lines) (
              Stored-seq _ (Stored-count (length p.default_params) w.n_defaults) (
                Stored-seq _ (Stored-count (length p.proto_code) w.n_code)
                  (Stored-give _ (Stored-count functions h) refl)))))))

  pub last-Stored :
      (p : ProtoParts F) (l : FuncProtos F)
      → PartsFit p
      → Stored
          (write_last p)
          (read_last (record p { stack_size = pos 0; is_generator = false; var_params = pos 0 }) l)
          (proto p l)
  unfolding write_last read_last
  last-Stored p l w = Stored-seq _ (Stored-integer p.stack_size w.stack_fits) (
      Stored-seq _ (Stored-word 1 (if p.is_generator then 1 else 0) (flag_fits p.is_generator)) (
        Stored-give _ (Stored-integer p.var_params w.var)
          (ap (λ b. give (proto (record p { is_generator = b }) l)) (flag_back p.is_generator))))
