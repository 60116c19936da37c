-- ===== src/Leveldb/Lsbm.antt =====
-- The operations of lsbm/lsbm_db.cc that are not those of leveldb/leveldb_db.cc, in the format
-- `single`: its reads and scans do not deserialize, and an update of all fields is written without a
-- read. Its Inserts, Deletes and other formats are those of Single and Composite.
pub mod Forgets
use my_ycsb_cpp.Prelude.{
  ◌≡◌, Bool, not, List, [], ◌∷◌, ◌++◌, Option, length, ◌==◌, take, map, if◌then◌else◌,
}
use my_ycsb_cpp.Prelude.Int.{ℤ, pos_part}
use my_ycsb_cpp.Prelude.Bytes.{Bytes, lit}
use my_ycsb_cpp.Prelude.Result.{exception}
use my_ycsb_cpp.Prelude.Outcome.{Outcome, done, thrown}
use my_ycsb_cpp.Db.{Field, Status, k_ok, k_error, k_not_found}
use my_ycsb_cpp.Workload.Builders.{u64_of_int}
use my_ycsb_cpp.Leveldb.Store.{Kv, KvStatus, fine, missing, failed}
use my_ycsb_cpp.Leveldb.Row.{serialize_row}
use my_ycsb_cpp.Leveldb.Single.{or_fail, update_got}

-- ReadSingleEntry behind its Get.
unfoldable pub read_got : KvStatus × Bytes → Outcome (Status × List Field)
read_got (missing text, data_) = done (k_not_found, [])
read_got (failed text, data_) = thrown (exception (lit "LevelDB Get: " ++ text))
read_got (fine, data_) = done (k_ok, [])

-- The row that ScanSingleEntry leaves empty for an entry.
abbrev pub no_row : Bytes × Bytes → List Field
no_row entry = []

module _ (kv : Kv) (fieldcount : ℤ) where
  unfoldable pub read_single_entry :
      kv.State → Bytes → Option (List Bytes) → Outcome (Status × List Field)
  unfolding read_got
  read_single_entry s key fields = read_got (kv.get s key)

  unfoldable pub scan_single_entry :
      kv.State → Bytes → ℤ → Option (List Bytes) → Outcome (Status × List (List Field))
  scan_single_entry s key len fields = done (k_ok, map no_row (take (pos_part len) (kv.seek s key)))

  -- `values.size() == static_cast<size_t>(fieldcount_)`
  abbrev pub is_all_fields : List Field → Bool
  is_all_fields values = length values == u64_of_int fieldcount

  unfoldable pub update_all_fields_single :
      kv.State → Bytes → List Field → Outcome (Status × kv.State)
  unfolding serialize_row
  update_all_fields_single s key values =
      let put = kv.put s key (serialize_row values) in
      if not (is_all_fields values)
      then done (k_error, s)
      else or_fail kv (lit "LevelDB Put: ") put.0 put.1

  unfoldable pub update_single_entry : kv.State → Bytes → List Field → Outcome (Status × kv.State)
  unfolding update_all_fields_single update_got
  update_single_entry s key values =
      if is_all_fields values
      then update_all_fields_single s key values
      else update_got kv s key values (kv.get s key)
