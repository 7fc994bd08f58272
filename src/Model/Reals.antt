-- ===== src/Model/Reals.antt =====
-- What the console's model uses of `f64`: its operations, its conversions to and from integers, and its
-- parsing. `before` is `partial_cmp` with the result `Less`.
use tracing_console.Base.{ℕ, Bool, Option}
use tracing_console.Base.Text.{Text}

pub record Reals : Type 1 where
  pub F64 : Type 0
  pub nought : F64
  pub one : F64
  pub four : F64
  pub sixty : F64
  pub hundred : F64
  pub billion : F64
  pub is_finite : F64 → Bool
  pub eq : F64 → F64 → Bool
  pub le : F64 → F64 → Bool
  pub lt : F64 → F64 → Bool
  pub before : F64 → F64 → Bool
  pub mul : F64 → F64 → F64
  pub div : F64 → F64 → F64
  pub neg : F64 → F64
  pub of_u64 : ℕ → F64
  pub round_u64 : F64 → ℕ
  pub ceil_u64 : F64 → ℕ
  pub parse : Text → Option F64
