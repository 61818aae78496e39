-- ===== src/Std/Float.antt =====
-- `f64` and the conversions between `Duration` and seconds. A duration is its number of
-- nanoseconds. The operations are parameters: nothing is assumed of rounding.
use bound_seal.Common.{ℕ, ◌≡◌, Bool, false, Option}

pub record Float64 : Type 1 where
  pub F : Type 0
  -- a literal such as `1.0`
  pub literal : ℕ → F
  pub is_finite : F → Bool
  pub lt : F → F → Bool
  pub le : F → F → Bool
  pub add : F → F → F
  pub sub : F → F → F
  pub mul : F → F → F
  pub div : F → F → F
  pub min : F → F → F
  pub max : F → F → F
  -- `Duration::as_secs_f64`
  pub as_secs_f64 : ℕ → F
  -- `Duration::from_secs_f64`; `none` is its panic
  pub from_secs_f64 : F → Option ℕ

-- `x < x` is false, also for a NaN.
abbrev pub IsIrreflexive : Float64 → Type 0
IsIrreflexive f = (x : f.F) → f.lt x x ≡ false
