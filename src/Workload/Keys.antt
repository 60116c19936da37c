-- ===== src/Workload/Keys.antt =====
-- CoreWorkload::BuildKeyName and NextFieldName of core/core_workload.cc.
pub mod Decimal
pub mod Order
use my_ycsb_cpp.Prelude.{
  ℕ, ◌+◌, ◌-◌, Bool, true, false, ◌&&◌, not, List, [], ◌∷◌, ◌++◌, replicate, length, if◌then◌else◌,
  max,
}
use my_ycsb_cpp.Prelude.Int.{ℤ, pos, ◌-ℤ◌, pos_part}
use my_ycsb_cpp.Prelude.Bytes.{Bytes, lit}
use my_ycsb_cpp.Utils.Hash.{hash}
use my_ycsb_cpp.Utils.Text.Numbers.{to_string}

-- `std::max(0, n)` is the positive part of an int.
unfoldable pub build_key_name : Bool → Bool → ℤ → ℕ → Bytes
unfolding hash to_string ◌-ℤ◌
build_key_name ordered_inserts random_inserts zero_padding key_num =
    let key = if not ordered_inserts && not random_inserts then hash key_num else key_num in
    let value = to_string key in
    let fill = pos_part (zero_padding -ℤ pos (length value)) in
    (lit "user" ++ replicate fill b'0') ++ value

-- NextFieldName, of the field number that the field chooser drew.
unfoldable pub field_name : Bytes → ℕ → Bytes
unfolding to_string
field_name prefix i = prefix ++ to_string i
