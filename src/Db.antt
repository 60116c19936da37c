-- ===== src/Db.antt =====
-- The interface DB of core/db.h: its data, and the operations as a record, over the state of a
-- database. A call may throw, and what it wrote before is then lost with the process, since no
-- caller goes on after an exception.
pub mod Wrapper
pub mod Factory
pub mod Basic
pub mod Table
use my_ycsb_cpp.Prelude.{ℕ, Bool, true, false, List, Option}
use my_ycsb_cpp.Prelude.Int.{ℤ}
use my_ycsb_cpp.Prelude.Bytes.{Bytes}
use my_ycsb_cpp.Prelude.Result.{Result}

pub record Field : Type 0 where
  pub name : Bytes
  pub value : Bytes

pub data Status : Type 0 where
  k_ok k_error k_not_found k_not_implemented : Status

-- `status == kOK`
abbrev pub is_ok : Status → Bool
is_ok k_ok = true
is_ok k_error = false
is_ok k_not_found = false
is_ok k_not_implemented = false

-- What a read returns: its status and the records that it appended to `result`.
pub record Database : Type 1 where
  pub State : Type 0
  pub init : State → Result State
  pub cleanup : State → Result State
  pub read : State → Bytes → Bytes → Option (List Bytes) → Result (Status × List Field × State)
  pub scan :
      State → Bytes → Bytes → ℤ → Option (List Bytes) → Result (Status × List (List Field) × State)
  pub update : State → Bytes → Bytes → List Field → Result (Status × State)
  pub insert : State → Bytes → Bytes → List Field → Result (Status × State)
  pub delete : State → Bytes → Bytes → Result (Status × State)
