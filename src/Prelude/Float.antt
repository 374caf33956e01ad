-- ===== src/Prelude/Float.antt =====
-- `f64`: the type and the operations of the standard library that the source calls are a
-- parameter, since the checker has no floating-point numbers.
use Prim.Native.Nat.{ℕ}
use Prim.Native.String.{String}
use mathlib.Core.Option.{Option}

pub record Floats : Type 1 where
  pub F64 : Type 0
  -- `n as f64`
  pub of_u64 : ℕ → F64
  pub divide : F64 → F64 → F64
  pub multiply : F64 → F64 → F64
  -- `str::parse::<f64>`
  pub parse_f64 : String → Option F64
  -- `format!("{:.N}", x)`
  pub show_fixed : ℕ → F64 → String
