-- ===== src/Common/Float.antt =====
-- The 64-bit floats of Rust as an interface: a carrier with the operations that the source calls.
use mathlib.Core.Bool.{Bool}
use mathlib.Core.Option.{Option}
use Prim.Native.String.{String}
use emergency_ration_webhook.Common.Int.{ℤ}

pub record Float : Type 1 where
  pub F : Type 0
  -- `str::parse::<f64>`
  pub parse : String → Option F
  -- `as f64`
  pub of_ℤ : ℤ → F
  -- `<`
  pub lt : F → F → Bool
  pub mul : F → F → F
  pub sub : F → F → F
  pub div : F → F → F
  -- `f64::max`
  pub fmax : F → F → F
  pub round : F → F
  pub floor : F → F
  -- `as i32`, `as i64`, `as i128`: towards zero, saturating, and 0 at NaN
  pub to_i32 : F → ℤ
  pub to_i64 : F → ℤ
  pub to_i128 : F → ℤ
