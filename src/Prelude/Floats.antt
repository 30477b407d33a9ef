-- ===== src/Prelude/Floats.antt =====
-- IEEE floats, as a parameter: the types f64 and f32 with the operations that the program calls. A NaN is
-- a value like another, so no law is taken for granted here.
use mathlib.Core.Bool.{Bool}
use Prim.Native.Nat.{ℕ}
use homeconnect.Prelude.Int.{ℤ}

pub record Floats : Type 1 where
  pub F64 : Type 0
  pub F32 : Type 0
  -- the literal n / 10 ^ k
  pub lit : ℕ → ℕ → F64
  pub lit32 : ℕ → ℕ → F32
  pub neg : F64 → F64
  pub neg32 : F32 → F32
  pub add : F64 → F64 → F64
  pub sub : F64 → F64 → F64
  pub mul : F64 → F64 → F64
  pub div : F64 → F64 → F64
  pub mul32 : F32 → F32 → F32
  -- f64::max and f64::min
  pub fmax : F64 → F64 → F64
  pub fmin : F64 → F64 → F64
  pub lt : F64 → F64 → Bool
  pub le : F64 → F64 → Bool
  pub eq : F64 → F64 → Bool
  pub lt32 : F32 → F32 → Bool
  -- x as f64, of an f32 and of an integer, and x as i64
  pub widen : F32 → F64
  pub of_int : ℤ → F64
  pub to_i64 : F64 → ℤ
  pub max_value : F64
  pub to_radians : F64 → F64
  pub sin : F64 → F64
  pub cos : F64 → F64
  pub sqrt : F64 → F64
  pub atan2 : F64 → F64 → F64
