-- ===== src/Prelude/Float.antt =====
-- The C++ `double`: its type and the operations that the program uses, with no law assumed of them.
use my_ycsb_cpp.Prelude.{ℕ, Bool}
use my_ycsb_cpp.Prelude.Int.{ℤ}
use my_ycsb_cpp.Prelude.Bytes.{Bytes}
use my_ycsb_cpp.Prelude.Result.{Result}

pub record Float : Type 1 where
  pub F : Type 0
  pub dec : ℕ → ℕ → F  -- the literal m / 10^k
  pub of_ℕ : ℕ → F  -- the conversion of a uint64_t
  pub of_int : ℤ → F  -- the conversion of an int
  pub to_u64 : F → ℕ  -- the conversion to uint64_t
  pub to_int : F → ℤ  -- the conversion to int
  pub add : F → F → F
  pub sub : F → F → F
  pub mul : F → F → F
  pub div : F → F → F
  pub pow : F → F → F
  pub lt : F → F → Bool
  pub eq : F → F → Bool
  pub stod : Bytes → Result F
