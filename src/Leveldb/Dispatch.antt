-- ===== src/Leveldb/Dispatch.antt =====
-- Read, Scan, Update, Insert and Delete of leveldb/leveldb_db.h, through the method pointers that
-- Init of leveldb/leveldb_db.cc sets by the format. The table's name is not used.
use my_ycsb_cpp.Prelude.{List, Option}
use my_ycsb_cpp.Prelude.Int.{ℤ}
use my_ycsb_cpp.Prelude.Bytes.{Bytes}
use my_ycsb_cpp.Prelude.Outcome.{Outcome}
use my_ycsb_cpp.Db.{Field, Status}
use my_ycsb_cpp.Leveldb.Store.{Kv}
use my_ycsb_cpp.Leveldb.Composite.{
  Format, single_entry, row_major, column_major, read_comp_key_rm, scan_comp_key_rm,
  read_comp_key_cm, scan_comp_key_cm, insert_comp_key, delete_comp_key,
}
use my_ycsb_cpp.Leveldb.Single.{
  read_single_entry, scan_single_entry, update_single_entry, insert_single_entry,
  delete_single_entry,
}
use my_ycsb_cpp.Leveldb.Instance.{LeveldbDb}

module _ (kv : Kv) where
  unfoldable pub method_read :
      Format → LeveldbDb → kv.State → Bytes → Option (List Bytes) → Outcome (Status × List Field)
  unfolding read_single_entry read_comp_key_rm read_comp_key_cm
  method_read single_entry db s key fields = read_single_entry kv s key fields
  method_read row_major db s key fields = read_comp_key_rm kv s db.fieldcount key fields
  method_read column_major db s key fields = read_comp_key_cm kv

  unfoldable pub method_scan :
      Format
      → LeveldbDb
      → kv.State
      → Bytes
      → ℤ
      → Option (List Bytes)
      → Outcome (Status × List (List Field))
  unfolding scan_single_entry scan_comp_key_rm scan_comp_key_cm
  method_scan single_entry db s key len fields = scan_single_entry kv s key len fields
  method_scan row_major db s key len fields = scan_comp_key_rm kv s db.fieldcount key len fields
  method_scan column_major db s key len fields = scan_comp_key_cm kv

  -- An update of a composite format is an insert.
  unfoldable pub method_update :
      Format → LeveldbDb → kv.State → Bytes → List Field → Outcome (Status × kv.State)
  unfolding update_single_entry insert_comp_key
  method_update single_entry db s key values = update_single_entry kv s key values
  method_update row_major db s key values = insert_comp_key kv s row_major key values
  method_update column_major db s key values = insert_comp_key kv s column_major key values

  unfoldable pub method_insert :
      Format → LeveldbDb → kv.State → Bytes → List Field → Outcome (Status × kv.State)
  unfolding insert_single_entry insert_comp_key
  method_insert single_entry db s key values = insert_single_entry kv s key values
  method_insert row_major db s key values = insert_comp_key kv s row_major key values
  method_insert column_major db s key values = insert_comp_key kv s column_major key values

  unfoldable pub method_delete : Format → LeveldbDb → kv.State → Bytes → Outcome (Status × kv.State)
  unfolding delete_single_entry delete_comp_key
  method_delete single_entry db s key = delete_single_entry kv s key
  method_delete row_major db s key =
      delete_comp_key kv s db.fieldcount row_major db.field_prefix key
  method_delete column_major db s key =
      delete_comp_key kv s db.fieldcount column_major db.field_prefix key
