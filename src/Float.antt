-- ===== src/Float.antt =====
-- Rust's `f64`, by its bit pattern. The arithmetic is a parameter of what uses it.
use mockinx.Common.{ℕ, Bool, Option}
use mockinx.Text.{Text}

pub data F64 : Type 0 where
  bits : ℕ → F64

-- The operations of `f64` and of `std::time::Duration` on seconds that the program calls.
pub record FloatOps : Type 0 where
  pub add : F64 → F64 → F64
  pub sub : F64 → F64 → F64
  pub mul : F64 → F64 → F64
  pub div : F64 → F64 → F64
  pub abs : F64 → F64
  pub lt : F64 → F64 → Bool
  pub eq : F64 → F64 → Bool
  -- `n as f64`
  pub of_u64 : ℕ → F64
  -- `x as u64`, which truncates and saturates
  pub to_u64 : F64 → ℕ
  pub parse : Text → Option F64
  pub display : F64 → Text
  -- `Duration::from_secs_f64` in nanoseconds; `none` where it panics
  pub from_secs : F64 → Option ℕ
  -- `Duration::as_secs_f64`
  pub as_secs : ℕ → F64
