-- ===== src/Leveldb/Instance.antt =====
-- Init and Cleanup of leveldb/leveldb_db.cc, and the handle and the counter that all instances
-- share. Both run under one mutex, so that each is one step.
pub mod Lifetime
use my_ycsb_cpp.Prelude.{ℕ, zero, suc, Bool, not, List, [], ◌∷◌, ◌++◌, if◌then◌else◌}
use my_ycsb_cpp.Prelude.Int.{ℤ, pos, negsuc, ◌+ℤ◌, ◌-ℤ◌}
use my_ycsb_cpp.Prelude.Bytes.{Bytes, lit, bytes_eq}
use my_ycsb_cpp.Prelude.Result.{Result, ok, err, exception, require, ◌>>=◌}
use my_ycsb_cpp.Utils.Text.Numbers.{stoi}
use my_ycsb_cpp.Utils.Properties.{Properties, get_property}
use my_ycsb_cpp.Leveldb.Store.{KvStatus, fine, missing, failed}
use my_ycsb_cpp.Leveldb.Composite.{Format, single_entry, row_major, column_major}
use my_ycsb_cpp.Leveldb.Options.{Options, get_options}

-- db_: null, or a database that is open, or one that was deleted, whose pointer is not null.
pub data Handle : Type 0 where
  null opened deleted : Handle

pub record Shared : Type 0 where
  pub db : Handle
  pub ref_cnt : ℤ

pub record LeveldbDb : Type 0 where
  pub format : Format
  pub fieldcount : ℤ
  pub field_prefix : Bytes

-- leveldb::DestroyDB and leveldb::DB::Open, over the state of the disk.
pub record Disk : Type 1 where
  pub State : Type 0
  pub destroy_db : State → Bytes → Options → KvStatus × State
  pub open_db : State → Bytes → Options → KvStatus × State

unfoldable pub parse_format : Bytes → Result Format
unfolding bytes_eq
parse_format format =
    if bytes_eq format (lit "single")
    then ok single_entry
    else if bytes_eq format (lit "row")
    then ok row_major
    else if bytes_eq format (lit "column")
    then ok column_major
    else err (exception (lit "unknown format"))

-- `if (!s.ok()) throw utils::Exception(what + s.ToString());`
abbrev pub checked_status : {A : Type 0} → Bytes → KvStatus × A → Result A
checked_status what (fine, a) = ok a
checked_status what (missing text, a) = err (exception (what ++ text))
checked_status what (failed text, a) = err (exception (what ++ text))

module _ (disk : Disk) where
  -- The part of Init behind `if (db_) return;`.
  unfoldable pub open_shared : Properties → disk.State → Result disk.State
  unfolding get_property bytes_eq get_options
  open_shared props d = do
    let db_path = get_property props (lit "leveldb.dbname") []
    _ ← require (not (bytes_eq db_path [])) (exception (lit "LevelDB db path is missing"))
    opt ← get_options props
    d' ←
        (if bytes_eq (get_property props (lit "leveldb.destroy") (lit "false")) (lit "true")
          then checked_status (lit "LevelDB DestroyDB: ") (disk.destroy_db d db_path opt)
          else ok d)
    checked_status (lit "LevelDB Open: ") (disk.open_db d' db_path opt)

  -- ref_cnt_++, and the open behind it, by the shared handle before.
  unfoldable pub acquire_from : Handle → Properties → ℤ → disk.State → Result (Shared × disk.State)
  unfolding open_shared ◌+ℤ◌
  acquire_from null props ref_cnt d = do
    d' ← open_shared props d
    ok (record { db = opened; ref_cnt = ref_cnt +ℤ pos 1 }, d')
  acquire_from db props ref_cnt d = ok (record { db = db; ref_cnt = ref_cnt +ℤ pos 1 }, d)

  unfoldable pub acquire : Properties → Shared → disk.State → Result (Shared × disk.State)
  unfolding acquire_from
  acquire props sh d = acquire_from sh.db props sh.ref_cnt d

  unfoldable pub init : Properties → Shared → disk.State → Result (LeveldbDb × Shared × disk.State)
  unfolding get_property parse_format stoi acquire
  init props sh d = do
    format ← parse_format (get_property props (lit "leveldb.format") (lit "single"))
    fieldcount ← stoi (get_property props (lit "fieldcount") (lit "10"))
    let field_prefix = get_property props (lit "fieldnameprefix") (lit "field")
    got ← acquire props sh d
    ok (
      record { format = format; fieldcount = fieldcount; field_prefix = field_prefix },
      got.0,
      got.1,
    )

-- `delete db_;`, which leaves the pointer as it is
abbrev pub deleted_handle : Handle → Handle
deleted_handle null = null
deleted_handle opened = deleted
deleted_handle deleted = deleted

-- `if (--ref_cnt_) return; delete db_;`, by the counter that is left
unfoldable pub release : ℤ → Handle → Shared
release (pos zero) db = record { db = deleted_handle db; ref_cnt = pos 0 }
release ref_cnt db = record { db = db; ref_cnt = ref_cnt }

unfoldable pub cleanup : Shared → Shared
unfolding release ◌-ℤ◌
cleanup sh = release (sh.ref_cnt -ℤ pos 1) sh.db
