-- ===== src/Rocksdb/Lorc/Refines.antt =====
-- Where rocksdb_lorc/rocksdb_db.cc keeps to the table of records.
use my_ycsb_cpp.Prelude.{◌≡◌, refl, List, some, All, true, false, ◌⊎◌}
use my_ycsb_cpp.Prelude.Bytes.{Bytes}
use my_ycsb_cpp.Prelude.Outcome.{Outcome, done}
use my_ycsb_cpp.Db.{Field, k_ok}
use my_ycsb_cpp.Db.Table.{
  Record, Table, Request, insert, update, delete, Operations, reading as stateless,
}
use my_ycsb_cpp.Db.Table.Follows.{Follows}
use my_ycsb_cpp.Leveldb.Store.{Kv}
use my_ycsb_cpp.Leveldb.Row.{serialize_row}
use my_ycsb_cpp.Leveldb.Row.RoundTrip.{FitsWord}
use my_ycsb_cpp.Leveldb.Single
use my_ycsb_cpp.Leveldb.Single.{deserialize, or_fail}
use my_ycsb_cpp.Leveldb.Single.Stored.{Accepts}
use my_ycsb_cpp.Rocksdb.Lorc
use my_ycsb_cpp.Rocksdb.Lorc.{
  LorcDb, RangeScan, is_all_fields, update_got, update_all_fields_single, scan_got, scan_loop,
}
use my_ycsb_cpp.Rocksdb.Lorc.AllFields.{Distinct, SameFields}

module _ (kv : Kv) (db : LorcDb) where
  abbrev pub operations : Operations kv.State
  operations = record {
    read = λ s key fields. stateless s (Lorc.read_single kv db s key fields);
    insert = Lorc.insert_single kv db;
    update = Lorc.update_single kv db;
    delete = Lorc.delete_single kv db;
  }

  -- The same, if every update read the record first.
  abbrev reading : Operations kv.State
  reading = record operations {
    update = λ s key values. update_got kv db s key values (kv.get s key);
  }

  -- A request whose names and values are shorter than 2^32 bytes, and that updates all fields only
  -- of a record that is there and has these fields, each once.
  abbrev pub FitsLorc : Table → Request → Type 0
  FitsLorc t (update key values) =
      All FitsWord values
      × ((is_all_fields kv db values ≡ false)
          ⊎ ((r : Record) × (t key ≡ some r) × Distinct values × SameFields r values))
  FitsLorc t (insert key values) = All FitsWord values
  FitsLorc t _ = Unit

  pub update_single-all :
      Accepts kv
      → (s : kv.State) (key : Bytes) (values : List Field) → is_all_fields kv db values ≡ true
      → Lorc.update_single kv db s key values ≡ done (k_ok, (kv.put s key (serialize_row values)).1)
  unfolding Lorc.update_single update_all_fields_single
  update_single-all accepts s key values all_ =
      rw (all_, accepts.puts s key (serialize_row values)) refl
