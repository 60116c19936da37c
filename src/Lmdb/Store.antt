-- ===== src/Lmdb/Store.antt =====
-- The parts of the library LMDB that lmdb/lmdb_db.cc calls, as an interface, and what its
-- documentation says of them: a transaction sees what was committed before it and what it wrote,
-- and a commit makes that the content of the environment.
use my_ycsb_cpp.Prelude.{◌≡◌, Bool, Option, none, some, [], if◌then◌else◌}
use my_ycsb_cpp.Prelude.Bytes.{Bytes, bytes_eq}
use my_ycsb_cpp.Leveldb.Store.{KvStatus, fine, missing}

-- A return code is a status with its mdb_strerror, where `missing` is MDB_NOTFOUND. A transaction
-- that is aborted, or is left open, does not change the environment.
pub record Mdb : Type 1 where
  pub State : Type 0
  pub Txn : Type 0
  pub Cursor : Type 0
  pub txn_begin : State → Bool → KvStatus × Txn  -- whether it is MDB_RDONLY
  pub get : Txn → Bytes → KvStatus × Bytes
  pub put : Txn → Bytes → Bytes → KvStatus × Txn
  pub del : Txn → Bytes → KvStatus × Txn
  pub txn_commit : State → Txn → KvStatus × State
  pub cursor_open : Txn → KvStatus × Cursor
  pub cursor_set : Cursor → Bytes → KvStatus × Bytes × Cursor  -- MDB_SET
  pub cursor_next : Cursor → KvStatus × Bytes × Cursor  -- MDB_NEXT

-- A value that a Get found, or MDB_NOTFOUND.
abbrev pub found : Bytes → Option Bytes → KvStatus × Bytes
found text none = (missing text, [])
found text (some data_) = (fine, data_)

pub record MdbLaws (db : Mdb) : Type 0 where
  pub content : db.State → Bytes → Option Bytes
  pub seen : db.Txn → Bytes → Option Bytes
  pub not_found : Bytes
  pub begin_seen :
      (s : db.State) (rdonly : Bool) (key : Bytes)
      → (db.txn_begin s rdonly).0 ≡ fine
      → seen (db.txn_begin s rdonly).1 key ≡ content s key
  pub get_seen : (t : db.Txn) (key : Bytes) → db.get t key ≡ found not_found (seen t key)
  pub put_seen :
      (t : db.Txn) (key data_ other : Bytes)
      → (db.put t key data_).0 ≡ fine
      → seen (db.put t key data_).1 other
        ≡ (if bytes_eq other key then some data_ else seen t other)
  pub del_seen :
      (t : db.Txn) (key other : Bytes)
      → (db.del t key).0 ≡ fine
      → seen (db.del t key).1 other ≡ (if bytes_eq other key then none else seen t other)
  pub del_missing :
      (t : db.Txn) (key : Bytes) → seen t key ≡ none → (db.del t key).0 ≡ missing not_found
  pub commit_content :
      (s : db.State) (t : db.Txn) (key : Bytes)
      → (db.txn_commit s t).0 ≡ fine
      → content (db.txn_commit s t).1 key ≡ seen t key
