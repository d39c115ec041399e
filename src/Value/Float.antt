-- ===== src/Value/Float.antt =====
-- `SQFloat`, the C++ `float`: its type and operations are a parameter of the model.
use sqnim.Prelude.{ℕ, Bool}
use sqnim.Prelude.Int.{ℤ}

pub record FloatOps : Type 1 where
  pub F : Type 0
  pub of_int : ℤ → F
  pub to_int : F → ℤ
  pub bits : F → ℕ
  pub of_bits : ℕ → F
  pub eqb : F → F → Bool
  pub ltb : F → F → Bool
  pub add : F → F → F
  pub sub : F → F → F
  pub mul : F → F → F
  pub div : F → F → F
  pub neg : F → F
  pub fmod : F → F → F
