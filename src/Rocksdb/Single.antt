-- ===== src/Rocksdb/Single.antt =====
-- ReadSingle, ScanSingle, UpdateSingle, InsertSingle and DeleteSingle of rocksdb/rocksdb_db.cc, over
-- the key-value store that RocksDB is.
pub mod Refines
use my_ycsb_cpp.Prelude.{List, [], ◌∷◌, ◌++◌, Option, none, some, take}
use my_ycsb_cpp.Prelude.Int.{ℤ, pos_part}
use my_ycsb_cpp.Prelude.Bytes.{Bytes, lit}
use my_ycsb_cpp.Prelude.Result.{exception}
use my_ycsb_cpp.Prelude.Outcome.{Outcome, done, thrown, undefined, stuck, ◌>>=◌}
use my_ycsb_cpp.Db.{Field, Status, k_ok, k_not_found}
use my_ycsb_cpp.Leveldb.Store.{Kv, KvStatus, fine, missing, failed}
use my_ycsb_cpp.Leveldb.Row.{deserialize_row, serialize_row}
use my_ycsb_cpp.Leveldb.Single.{deserialize, overwrite_all, scan_rows, or_fail}

-- ReadSingle behind its Get.
unfoldable pub read_got : KvStatus × Bytes → Option (List Bytes) → Outcome (Status × List Field)
unfolding deserialize
read_got (missing text, data_) fields = done (k_not_found, [])
read_got (failed text, data_) fields = thrown (exception (lit "RocksDB Get: " ++ text))
read_got (fine, data_) fields = do values ← deserialize data_ fields; done (k_ok, values)

module _ (kv : Kv) where
  unfoldable pub read_single :
      kv.State → Bytes → Option (List Bytes) → Outcome (Status × List Field)
  unfolding read_got
  read_single s key fields = read_got (kv.get s key) fields

  unfoldable pub scan_single :
      kv.State → Bytes → ℤ → Option (List Bytes) → Outcome (Status × List (List Field))
  unfolding scan_rows
  scan_single s key len fields = do
    rows ← scan_rows (take (pos_part len) (kv.seek s key)) fields
    done (k_ok, rows)

  unfoldable pub insert_single : kv.State → Bytes → List Field → Outcome (Status × kv.State)
  unfolding serialize_row
  insert_single s key values =
      let put = kv.put s key (serialize_row values) in or_fail kv (lit "RocksDB Put: ") put.0 put.1

  -- UpdateSingle behind its Get.
  unfoldable pub update_got :
      kv.State → Bytes → List Field → KvStatus × Bytes → Outcome (Status × kv.State)
  unfolding deserialize_row overwrite_all serialize_row
  update_got s key values (missing text, data_) = done (k_not_found, s)
  update_got s key values (failed text, data_) = thrown (exception (lit "RocksDB Get: " ++ text))
  update_got s key values (fine, data_) = do
    current_values ← deserialize_row data_
    let put = kv.put s key (serialize_row (overwrite_all current_values values))
    or_fail kv (lit "RocksDB Put: ") put.0 put.1

  unfoldable pub update_single : kv.State → Bytes → List Field → Outcome (Status × kv.State)
  unfolding update_got
  update_single s key values = update_got s key values (kv.get s key)

  unfoldable pub delete_single : kv.State → Bytes → Outcome (Status × kv.State)
  delete_single s key = let del = kv.delete s key in or_fail kv (lit "RocksDB Delete: ") del.0 del.1
