-- ===== src/Common/Floats.antt =====
-- The operations on `f32` and `f64` that the source calls. The hardware's arithmetic is a
-- parameter: nothing is assumed of it, so every theorem holds for any rounding.
use Prim.Native.Nat.{ℕ}
use mathlib.Core.Bool.{Bool}

pub record Floats : Type 1 where
  pub F : Type 0
  pub add : F → F → F
  pub sub : F → F → F
  pub mul : F → F → F
  pub div : F → F → F
  pub fmax : F → F → F
  pub abs : F → F
  pub sqrt : F → F
  pub log10 : F → F
  pub tanh : F → F
  pub powf : F → F → F
  pub copysign : F → F → F
  -- `a > b`
  pub gt : F → F → Bool
  -- `a < b` and `a >= b`
  pub less : F → F → Bool
  pub at_least : F → F → Bool
  -- `n as f32` of a count
  pub of_usize : ℕ → F
  -- `s as f32` of a sample, which is an `i16` as its bit pattern
  pub of_i16 : ℕ → F
  -- `x as usize`
  pub to_usize : F → ℕ
  -- `x as i16`, as a bit pattern
  pub to_i16 : F → ℕ
  -- where `sum()` starts
  pub sum_zero : F
  -- the literal m / 10^e, and its negative
  pub lit : ℕ → ℕ → F
  pub neg_lit : ℕ → ℕ → F
  pub neg_infinity : F
