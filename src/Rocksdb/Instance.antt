-- ===== src/Rocksdb/Instance.antt =====
-- Init and Cleanup of rocksdb/rocksdb_db.cc, and the handle and the counter that all instances
-- share. Both run under one mutex, so that each is one step.
use my_ycsb_cpp.Prelude.{zero, not, [], if◌then◌else◌}
use my_ycsb_cpp.Prelude.Int.{ℤ, pos, ◌+ℤ◌, ◌-ℤ◌}
use my_ycsb_cpp.Prelude.Bytes.{Bytes, lit, bytes_eq}
use my_ycsb_cpp.Prelude.Result.{Result, ok, exception, require, ◌>>=◌}
use my_ycsb_cpp.Utils.Text.Numbers.{stoi}
use my_ycsb_cpp.Utils.Properties.{Properties, get_property}
use my_ycsb_cpp.Leveldb.Store.{KvStatus}
use my_ycsb_cpp.Leveldb.Instance.{Handle, null, opened, Shared, deleted_handle, checked_status}
use my_ycsb_cpp.Rocksdb.Options.{Uris, Config, get_options, is_true}

-- method_update_, in a build with USE_MERGEUPDATE.
pub data Update : Type 0 where
  update_single merge_single : Update

pub record RocksdbDb : Type 0 where
  pub method_update : Update
  pub fieldcount : ℤ

-- rocksdb::DestroyDB and the two forms of rocksdb::DB::Open, over the state of the disk.
pub record Disk : Type 1 where
  pub State : Type 0
  pub destroy_db : State → Bytes → Config → KvStatus × State
  pub open_db : State → Bytes → Config → KvStatus × State

module _ (uris : Uris) (disk : Disk) where
  -- The part of Init behind `if (db_) return;`.
  unfoldable pub open_shared : Properties → disk.State → Result disk.State
  unfolding get_property bytes_eq get_options is_true
  open_shared props d = do
    let db_path = get_property props (lit "rocksdb.dbname") []
    _ ← require (not (bytes_eq db_path [])) (exception (lit "RocksDB db path is missing"))
    opt ← get_options uris props
    d' ←
        (if is_true props (lit "rocksdb.destroy")
          then checked_status (lit "RocksDB DestroyDB: ") (disk.destroy_db d db_path opt)
          else ok d)
    checked_status (lit "RocksDB Open: ") (disk.open_db d' db_path opt)

  -- `ref_cnt_++; if (db_) return;` and the open behind it, by the shared handle before.
  unfoldable pub acquire_from : Handle → Properties → ℤ → disk.State → Result (Shared × disk.State)
  unfolding open_shared ◌+ℤ◌
  acquire_from null props ref_cnt d = do
    d' ← open_shared props d
    ok (record { db = opened; ref_cnt = ref_cnt +ℤ pos 1 }, d')
  acquire_from db props ref_cnt d = ok (record { db = db; ref_cnt = ref_cnt +ℤ pos 1 }, d)

  unfoldable pub init : Properties → Shared → disk.State → Result (RocksdbDb × Shared × disk.State)
  unfolding get_property bytes_eq is_true stoi acquire_from
  init props sh d = do
    let format = get_property props (lit "rocksdb.format") (lit "single")
    _ ← require (bytes_eq format (lit "single")) (exception (lit "unknown format"))
    fieldcount ← stoi (get_property props (lit "fieldcount") (lit "10"))
    got ← acquire_from sh.db props sh.ref_cnt d
    ok (
      record {
        method_update =
            if is_true props (lit "rocksdb.mergeupdate") then merge_single else update_single;
        fieldcount = fieldcount;
      },
      got.0,
      got.1,
    )

-- `if (--ref_cnt_) return; delete db_;`, by the counter that is left. The column families' handles
-- are destroyed before it.
unfoldable pub release : ℤ → Handle → Shared
release (pos zero) db = record { db = deleted_handle db; ref_cnt = pos 0 }
release ref_cnt db = record { db = db; ref_cnt = ref_cnt }

unfoldable pub cleanup : Shared → Shared
unfolding release ◌-ℤ◌
cleanup sh = release (sh.ref_cnt -ℤ pos 1) sh.db
