-- ===== src/Rocksdb/Lorc/Departures.antt =====
-- Where rocksdb_lorc/rocksdb_db.cc departs from the table of records.
use my_ycsb_cpp.Prelude.{
  ◌≡◌, refl, ap, ◌∙◌, List, [], ◌∷◌, ◌++◌, Option, Bool, true, false, not, length, ◌==◌, ◌&&◌,
  arith, if◌then◌else◌,
}
use my_ycsb_cpp.Prelude.Int.{ℤ}
use my_ycsb_cpp.Prelude.Bytes.{Bytes, lit}
use my_ycsb_cpp.Prelude.Result.{exception}
use my_ycsb_cpp.Prelude.Outcome.{done, thrown}
use my_ycsb_cpp.Db.{k_ok}
use my_ycsb_cpp.Db.Table.{Table}
use my_ycsb_cpp.Leveldb.Store.{Kv, failed}
use my_ycsb_cpp.Rocksdb.Lorc
use my_ycsb_cpp.Rocksdb.Lorc.{
  LorcDb, RangeScan, read_got, update_got, update_all_fields_single, scan_got, scan_loop,
}

module _ (kv : Kv) (db : LorcDb) where
  -- A scan whose Scan fails throws only if it deserializes and the Scan has returned some entry;
  -- else it returns kOK with no rows.
  pub scan_failed :
      (range : RangeScan kv) (s : kv.State) (key : Bytes) (len : ℤ) (fields : Option (List Bytes))
      (text : Bytes) (entries : List (Bytes × Bytes))
      → range.scan_range s key len ≡ (failed text, entries)
      → Lorc.scan_single kv db range s key len fields ≡ (
          if db.deserialize_on_read && not (length entries == 0)
          then thrown (exception (lit "RocksDB Scan: " ++ text))
          else done (k_ok, []))
  unfolding Lorc.scan_single
  scan_failed range s key len fields text entries e =
      ap (λ got. scan_got db.deserialize_on_read got fields) e ∙ by db.deserialize_on_read entries
    where
      by :
          (on : Bool) (entries : List (Bytes × Bytes))
          → scan_got on (failed text, entries) fields ≡ (
              if on && not (length entries == 0)
              then thrown (exception (lit "RocksDB Scan: " ++ text))
              else done (k_ok, []))
      by false entries = unfold scan_got in refl
      by true [] = unfold scan_got scan_loop in refl
      by true (entry ∷ entries) = unfold scan_got scan_loop in ground arith
