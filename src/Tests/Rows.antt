-- ===== src/Tests/Rows.antt =====
-- The LevelDB binding and the other databases on concrete records.
use my_ycsb_cpp.Prelude.{ℕ, ◌+◌, ◌≡◌, refl, List, [], ◌∷◌, ◌++◌, Option, none, some, take, arith}
use my_ycsb_cpp.Prelude.Int.{pos}
use my_ycsb_cpp.Prelude.Bytes.{Bytes, lit}
use my_ycsb_cpp.Prelude.Result.{ok}
use my_ycsb_cpp.Prelude.Outcome.{done}
use my_ycsb_cpp.Utils.Properties.{Properties}
use my_ycsb_cpp.Db.{Field}
use my_ycsb_cpp.Leveldb.Row.{serialize_row, deserialize_row}
use my_ycsb_cpp.Leveldb.Row.RoundTrip.{deserialize_row-serialize_row}
use my_ycsb_cpp.Leveldb.Composite.{scan_records}
use my_ycsb_cpp.Leveldb.Composite.Keys.{NoColon}
use my_ycsb_cpp.Leveldb.Composite.Scans.{entries_of_all, rows, scan_records_lem}
use my_ycsb_cpp.Leveldb.Instance.{Disk, Shared, LeveldbDb, opened, deleted, init, cleanup}
use my_ycsb_cpp.Leveldb.Instance.Lifetime.{Lives, start, by_init, fresh, Lives-handle}
use my_ycsb_cpp.Leveldb.Store.{fine}
use my_ycsb_cpp.Leveldb.Composite.{single_entry}
use my_ycsb_cpp.Tests.Records.{f0, two_fields, two_fields-fit}

serialize_one : serialize_row (f0 ∷ []) ≡ 2 ∷ 0 ∷ 0 ∷ 0 ∷ (lit "f0" ++ 3 ∷ 0 ∷ 0 ∷ 0 ∷ lit "abc")
unfolding serialize_row
serialize_one = refl

deserialize_row-serialize_row_example : deserialize_row (serialize_row two_fields) ≡ done two_fields
deserialize_row-serialize_row_example = deserialize_row-serialize_row two_fields two_fields-fit

-- An empty store, and one that holds the record.
abbrev pub empty : Bytes → Option Bytes
empty k = none

abbrev pub filled : Bytes → Option Bytes
filled k = some (serialize_row two_fields)

k-NoColon : NoColon (lit "k")
k-NoColon = ground arith

abbrev pub two_records : List (Bytes × List Field)
two_records = (lit "k", two_fields) ∷ (lit "l", two_fields) ∷ []

scan_records_lem_example :
    scan_records 5 (pos 2) none (entries_of_all two_records) ≡ take 5 (rows two_records)
scan_records_lem_example =
    scan_records_lem 1 5 two_records ((k-NoColon, refl), ((ground arith, refl), tt))

abbrev pub plain_disk : Disk
plain_disk = record {
  State = ℕ;
  destroy_db = λ s path opt. (fine, s);
  open_db = λ s path opt. (fine, s + 1);
}

abbrev pub named : Properties
named = (lit "leveldb.dbname", lit "/tmp/db") ∷ []

abbrev pub instance_one : LeveldbDb
instance_one = record { format = single_entry; fieldcount = pos 10; field_prefix = lit "field" }

abbrev pub in_use : Shared
in_use = record { db = opened; ref_cnt = pos 1 }

init_one : init plain_disk named fresh 0 ≡ ok (instance_one, in_use, 1)
unfolding init
init_one = refl

one_life : Lives plain_disk named 1 in_use 1
one_life = by_init (start 0) init_one

Lives-handle_example : (in_use.ref_cnt ≡ pos 1) × (in_use.db ≡ opened)
Lives-handle_example = Lives-handle plain_disk named one_life

abbrev pub reused : Shared
reused = record { db = deleted; ref_cnt = pos 1 }

init_again : init plain_disk named (cleanup in_use) 1 ≡ ok (instance_one, reused, 1)
unfolding init cleanup
init_again = refl
