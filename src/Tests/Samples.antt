-- ===== src/Tests/Samples.antt =====
-- A small stand-in for floating point, with which the parameters of the model have values: the
-- numbers are the integers, and `none` is the value that is not a number.
use mathlib.Core.Option.{Option, none, some}
use sqnim.Prelude.Int.{ℤ, pos, ◌+ℤ◌, ◌-ℤ◌, ◌*ℤ◌, eqb_ℤ, ltb_ℤ}
use sqnim.Prelude.{ℕ, refl, Bool, false, [], ◌==◌, if◌then◌else◌, arith}
use sqnim.Value.Arith.{ArithEnv}
use sqnim.Value.Compare.Mixed.{IeeeBits}
use sqnim.Value.Compare.{Result}
use sqnim.Value.Float.{FloatOps}
use sqnim.Value.{Value}

abbrev lift : (ℤ → ℤ → ℤ) → Option ℤ → Option ℤ → Option ℤ
lift f (some a) (some b) = some (f a b)
lift f (some a) none = none
lift f none b = none

abbrev test : (ℤ → ℤ → Bool) → Option ℤ → Option ℤ → Bool
test f (some a) (some b) = f a b
test f (some a) none = false
test f none b = false

abbrev whole : Option ℤ → ℤ
whole (some a) = a
whole none = pos 0

abbrev decode : ℕ → Option ℤ
decode w = if w == 0 then some (pos 0) else none

abbrev pub sample_ops : FloatOps
sample_ops = record {
  F = Option ℤ;
  of_int = some;
  to_int = whole;
  bits = λ f. 0;
  of_bits = decode;
  eqb = test eqb_ℤ;
  ltb = test ltb_ℤ;
  add = lift ◌+ℤ◌;
  sub = lift ◌-ℤ◌;
  mul = lift ◌*ℤ◌;
  div = λ f g. none;
  neg = λ f. lift ◌-ℤ◌ (some (pos 0)) f;
  fmod = λ f g. none;
}

pub sample_ieee : IeeeBits sample_ops
sample_ieee = record {
  zero_eq = λ i. refl;
  zero_lt = λ i. refl;
  nan_eq = λ w i h k. ground arith;
  nan_lt = λ w i h k. ground arith;
}

abbrev pub no_meta : Value (Option ℤ) → Value (Option ℤ) → Option (Result (Value (Option ℤ)))
no_meta a b = none

abbrev pub sample_env : ArithEnv sample_ops
sample_env = record { to_string = λ v. some []; meta = λ op a b. none; meta_neg = λ v. none }
