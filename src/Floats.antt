-- ===== src/Floats.antt =====
-- Go's float64 as an interface: the operations that the program uses, with no law. What a theorem
-- needs of them it states. `to_int64` and `to_uint64` are Go's conversions.
pub mod Exact
use proxy_router.Prelude.{ℕ, Bool}
use proxy_router.Prelude.Int.{ℤ}

pub record Float64 : Type 1 where
  pub F : Type 0
  pub of_int : ℤ → F
  pub add : F → F → F
  pub sub : F → F → F
  pub mul : F → F → F
  pub div : F → F → F
  pub abs : F → F
  pub min : F → F → F
  pub max : F → F → F
  pub lt : F → F → Bool
  pub le : F → F → Bool
  pub to_int64 : F → ℤ
  pub to_uint64 : F → ℕ
