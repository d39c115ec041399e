-- ===== src/Proto/Closure.antt =====
-- `SQClosure::Save` and `SQClosure::Load`, one after the other.
use sqnim.Prelude.{
  ℕ, zero, suc, ◌-◌, ◌*◌, ◌<◌, ◌≤◌, ◌≡◌, refl, none, some, List, [], ◌∷◌, ◌++◌, length, take, arith,
  ltb, max, if◌then◌else◌,
}
use sqnim.Proto.Fields.{PartsFit, vectors-Stored, counts-Stored, last-Stored}
use sqnim.Proto.Items.{object-Stored, Stored-tag}
use sqnim.Proto.Load.{load, load_closure, read_functions}
use sqnim.Proto.Save.{
  Paddings, inner_paddings, stream_head, stream_part, stream_tail, count_protos, save,
  save_functions, save_closure,
}
use sqnim.Proto.Stored.{Stored, Stored-seq, Stored-give, Stored-done}
use sqnim.Proto.Writing.{FloatBytes}
use sqnim.Proto.{FuncProto, FuncProtos, proto, no_proto, next_proto}
use sqnim.Stream.{patterns}

-- four bytes of memory for each captured variable
abbrev pub IsPadded : Paddings → Type 0
IsPadded paddings = (path : List ℕ) (i : ℕ) → length (paddings path i) ≡ 4

-- how deep functions stand in functions
abbrev mutual
  pub depth_of : {F : Type 0} → FuncProto F → ℕ
  depth_of (proto p l) = suc (depth_all l)

  pub depth_all : {F : Type 0} → FuncProtos F → ℕ
  depth_all no_proto = 0
  depth_all (next_proto f l) = max (depth_of f) (depth_all l)

-- a function that fits the stream, with all functions inside it
abbrev mutual
  pub IsSavable : {F : Type 0} → FuncProto F → Type 0
  IsSavable (proto p l) = PartsFit p × (2 * count_protos l < patterns 8) × AllSavable l

  pub AllSavable : {F : Type 0} → FuncProtos F → Type 0
  AllSavable no_proto = Unit {0}
  AllSavable (next_proto f l) = IsSavable f × AllSavable l

module _ {F : Type 0} (floats : FloatBytes F)
    (sized : (f : F) → length (floats.float_to f) ≡ floats.float_size)
    (back : (f : F) → floats.float_of (floats.float_to f) ≡ f) where
  mutual
    unfolding save save_functions load read_functions count_protos

    save-Stored :
        (paddings : Paddings) (f : FuncProto F) (fuel : ℕ)
        → IsPadded paddings
        → depth_of f ≤ fuel
        → IsSavable f
        → Stored (save floats paddings f) (load floats fuel) f
    save-Stored paddings (proto p l) zero padded deep w = absurd (omega (arith, deep))
    save-Stored paddings (proto p l) (suc fuel) padded deep (fit, few, inner) =
        let tag = Stored-tag stream_part (omega arith) in
        Stored-seq _ tag (
          Stored-seq _ (object-Stored floats sized back p.source_name fit.source) (
            Stored-seq _ (object-Stored floats sized back p.proto_name fit.name) (
              Stored-seq _ tag (
                Stored-seq _ (counts-Stored floats sized back p (count_protos l) fit few) (
                  Stored-seq _
                    (vectors-Stored floats sized back (paddings []) p (count_protos l) (padded [])
                      fit)
                    (Stored-seq _
                      (functions-Stored paddings 0 l fuel padded (omega (arith, deep)) inner)
                      (last-Stored floats sized back p l fit)))))))

    functions-Stored :
        (paddings : Paddings) (i : ℕ) (l : FuncProtos F) (fuel : ℕ)
        → IsPadded paddings
        → depth_all l ≤ fuel
        → AllSavable l
        → Stored
            (save_functions floats paddings i l)
            (read_functions (load floats fuel) (count_protos l))
            l
    functions-Stored paddings i no_proto fuel padded deep w = Stored-done no_proto
    functions-Stored paddings i (next_proto f l) fuel padded deep (first, rest) =
        Stored-seq _
          (save-Stored (inner_paddings paddings i) f fuel (λ path. padded (i ∷ path))
            (omega (arith, deep)) first)
          (Stored-give _
            (functions-Stored paddings (suc i) l fuel padded (omega (arith, deep)) rest) refl)

  closure-Stored :
      (paddings : Paddings) (f : FuncProto F) (fuel : ℕ)
      → IsPadded paddings
      → depth_of f ≤ fuel
      → IsSavable f
      → floats.float_size < patterns 4
      → Stored (save_closure floats paddings f) (load_closure floats fuel) f
  unfolding save_closure load_closure
  closure-Stored paddings f fuel padded deep w small =
      Stored-seq _ (Stored-tag stream_head (omega arith)) (
        Stored-seq _ (Stored-tag 1 (omega arith)) (
          Stored-seq _ (Stored-tag 8 (omega arith)) (
            Stored-seq _ (Stored-tag floats.float_size small) (
              Stored-seq _ (save-Stored paddings f fuel padded deep w)
                (Stored-give _ (Stored-tag stream_tail (omega arith)) refl)))))

-- Saving a function whose fields fit the stream emits certain bytes if there is room for them, and
-- fails if not, whatever four bytes stand after the type of each captured variable. Loading takes these bytes
-- for the same function, leaves what follows them, and fails on any part of them that is not whole.
-- The fuel of the loading is at least how deep functions stand in functions. The hypotheses on floats
-- say that they have their size in memory and that reading this memory gives them back.
pub save_closure-load_closure :
    {F : Type 0} (floats : FloatBytes F) (paddings : Paddings) (f : FuncProto F) (fuel : ℕ)
    → ((x : F) → length (floats.float_to x) ≡ floats.float_size)
    → ((x : F) → floats.float_of (floats.float_to x) ≡ x)
    → floats.float_size < patterns 4
    → IsPadded paddings
    → IsSavable f
    → depth_of f ≤ fuel
    → (bytes : List ℕ) × ((room : ℕ)
        → save_closure floats paddings f room
          ≡ (if ltb room (length bytes) then none else some (bytes, room - length bytes)))
      × ((rest : List ℕ) → load_closure floats fuel (bytes ++ rest) ≡ some (f, rest))
      × ((n : ℕ) → n < length bytes → load_closure floats fuel (take n bytes) ≡ none)
save_closure-load_closure floats paddings f fuel sized back small padded w deep =
    let s = closure-Stored floats sized back paddings f fuel padded deep w small in
    (s.bytes, s.emits, s.whole, s.cut)
