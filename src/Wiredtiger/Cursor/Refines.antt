-- ===== src/Wiredtiger/Cursor/Refines.antt =====
-- wiredtiger/wiredtiger_db.cc keeps to the table of records.
use my_ycsb_cpp.Prelude.{◌≡◌}
use my_ycsb_cpp.Prelude.Bytes.{Bytes}
use my_ycsb_cpp.Db.Table.{Table, insert, update, delete, Operations}
use my_ycsb_cpp.Leveldb.Row.Kept.{Kept}
use my_ycsb_cpp.Wiredtiger.Store.{Wt, WtLaws, zero_ret, searched}
use my_ycsb_cpp.Wiredtiger.Cursor.{
  read_single_entry, update_single_entry, insert_single_entry, delete_single_entry,
}

module _ (file : Bytes) (wt : Wt) (laws : WtLaws wt) where
  abbrev pub Represents : wt.State → Table → Type 0
  Represents s t = (key : Bytes) → Kept (laws.content s key) (t key)

  -- Writes that never fail: a remove of a key that is not there succeeds too, since the cursor
  -- overwrites.
  pub record Accepts : Type 0 where
    pub inserts :
        (s : wt.State) (key value : Bytes)
        → (wt.insert (wt.set_value (wt.set_key s key) value)).0 ≡ zero_ret
    pub updates :
        (s : wt.State) (key value : Bytes)
        → (wt.update (wt.set_value (searched wt s key).1 value)).0 ≡ zero_ret
    pub removes : (s : wt.State) (key : Bytes) → (wt.remove (wt.set_key s key)).0 ≡ zero_ret

  abbrev pub operations : Operations wt.State
  operations = record {
    read = read_single_entry file wt;
    insert = insert_single_entry file wt;
    update = update_single_entry file wt;
    delete = delete_single_entry file wt;
  }
