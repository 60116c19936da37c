-- ===== src/Rocksdb/Lorc.antt =====
-- ReadSingle, ScanSingle, UpdateSingle, UpdateAllFieldsSingle, InsertSingle and DeleteSingle of
-- rocksdb_lorc/rocksdb_db.cc, the RocksDB with a range cache. disable_wal_ is an option of the
-- writes, and does not show in what they return.
pub mod AllFields
pub mod Refines
pub mod Departures
use my_ycsb_cpp.Prelude.{
  ◌≡◌, Bool, true, false, not, List, [], ◌∷◌, ◌++◌, Option, none, some, length, ◌==◌, map,
  if◌then◌else◌,
}
use my_ycsb_cpp.Prelude.Int.{ℤ}
use my_ycsb_cpp.Prelude.Bytes.{Bytes, lit}
use my_ycsb_cpp.Prelude.Result.{exception}
use my_ycsb_cpp.Prelude.Outcome.{Outcome, done, thrown, undefined, stuck, ◌>>=◌}
use my_ycsb_cpp.Db.{Field, Status, k_ok, k_error, k_not_found}
use my_ycsb_cpp.Workload.Builders.{u64_of_int}
use my_ycsb_cpp.Leveldb.Store.{Kv, KvStatus, fine, missing, failed}
use my_ycsb_cpp.Leveldb.Row.{deserialize_row, serialize_row}
use my_ycsb_cpp.Leveldb.Single.{deserialize, overwrite_all, or_fail}

-- The Scan of this RocksDB, which returns keys and values.
pub record RangeScan (kv : Kv) : Type 0 where
  pub scan_range : kv.State → Bytes → ℤ → KvStatus × List (Bytes × Bytes)

pub record LorcDb : Type 0 where
  pub fieldcount : ℤ
  pub deserialize_on_read : Bool

-- ReadSingle behind its Get.
unfoldable pub read_got :
    Bool → KvStatus × Bytes → Option (List Bytes) → Outcome (Status × List Field)
unfolding deserialize
read_got on_read (missing text, data_) fields = done (k_not_found, [])
read_got on_read (failed text, data_) fields = thrown (exception (lit "RocksDB Get: " ++ text))
read_got true (fine, data_) fields = do values ← deserialize data_ fields; done (k_ok, values)
read_got false (fine, data_) fields = done (k_ok, [])

-- The loop of ScanSingle, which looks at the status of the Scan in each round.
unfoldable pub scan_loop :
    KvStatus → List (Bytes × Bytes) → Option (List Bytes) → Outcome (List (List Field))
unfolding deserialize
scan_loop status [] fields = done []
scan_loop (missing text) (entry ∷ entries) fields =
    thrown (exception (lit "RocksDB Scan: " ++ text))
scan_loop (failed text) (entry ∷ entries) fields = thrown (exception (lit "RocksDB Scan: " ++ text))
scan_loop fine ((key, data_) ∷ entries) fields = do
  values ← deserialize data_ fields
  rest ← scan_loop fine entries fields
  done (values ∷ rest)

unfoldable pub scan_got :
    Bool
    → KvStatus × List (Bytes × Bytes)
    → Option (List Bytes)
    → Outcome (Status × List (List Field))
unfolding scan_loop
scan_got false (status, entries) fields = done (k_ok, [])
scan_got true (status, entries) fields = do
  rows ← scan_loop status entries fields
  done (k_ok, rows)

module _ (kv : Kv) (db : LorcDb) where
  -- `values.size() == static_cast<size_t>(fieldcount_)`
  abbrev pub is_all_fields : List Field → Bool
  is_all_fields values = length values == u64_of_int db.fieldcount

  unfoldable pub read_single :
      kv.State → Bytes → Option (List Bytes) → Outcome (Status × List Field)
  unfolding read_got
  read_single s key fields = read_got db.deserialize_on_read (kv.get s key) fields

  unfoldable pub scan_single :
      RangeScan kv
      → kv.State
      → Bytes
      → ℤ
      → Option (List Bytes)
      → Outcome (Status × List (List Field))
  unfolding scan_got
  scan_single range s key len fields =
      scan_got db.deserialize_on_read (range.scan_range s key len) fields

  unfoldable pub insert_single : kv.State → Bytes → List Field → Outcome (Status × kv.State)
  unfolding serialize_row
  insert_single s key values =
      let put = kv.put s key (serialize_row values) in or_fail kv (lit "RocksDB Put: ") put.0 put.1

  unfoldable pub update_all_fields_single :
      kv.State → Bytes → List Field → Outcome (Status × kv.State)
  unfolding serialize_row
  update_all_fields_single s key values =
      let put = kv.put s key (serialize_row values) in
      if not (is_all_fields values)
      then done (k_error, s)
      else or_fail kv (lit "RocksDB Put: ") put.0 put.1

  -- UpdateSingle behind its Get.
  unfoldable pub update_got :
      kv.State → Bytes → List Field → KvStatus × Bytes → Outcome (Status × kv.State)
  unfolding deserialize_row overwrite_all serialize_row
  update_got s key values (missing text, data_) = done (k_not_found, s)
  update_got s key values (failed text, data_) = thrown (exception (lit "RocksDB Get: " ++ text))
  update_got s key values (fine, data_) = do
    current_values ← deserialize_row data_
    let put = kv.put s key (serialize_row (overwrite_all current_values values))
    or_fail kv (lit "RocksDB Put: ") put.0 put.1

  unfoldable pub update_single : kv.State → Bytes → List Field → Outcome (Status × kv.State)
  unfolding update_all_fields_single update_got
  update_single s key values =
      if is_all_fields values
      then update_all_fields_single s key values
      else update_got s key values (kv.get s key)

  unfoldable pub delete_single : kv.State → Bytes → Outcome (Status × kv.State)
  delete_single s key = let del = kv.delete s key in or_fail kv (lit "RocksDB Delete: ") del.0 del.1
