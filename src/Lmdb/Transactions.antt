-- ===== src/Lmdb/Transactions.antt =====
-- Read, Scan, Update, Insert and Delete of lmdb/lmdb_db.cc. An exception leaves the transaction
-- open, and the environment as it was.
pub mod Calls
pub mod Refines
use my_ycsb_cpp.Prelude.{ℕ, zero, suc, Bool, true, false, List, [], ◌∷◌, ◌++◌, Option, none, some}
use my_ycsb_cpp.Prelude.Int.{ℤ, pos_part}
use my_ycsb_cpp.Prelude.Bytes.{Bytes, lit}
use my_ycsb_cpp.Prelude.Result.{exception}
use my_ycsb_cpp.Prelude.Outcome.{Outcome, done, thrown, undefined, stuck, ◌>>=◌}
use my_ycsb_cpp.Db.{Field, Status, k_ok, k_not_found}
use my_ycsb_cpp.Leveldb.Store.{KvStatus, fine, missing, failed}
use my_ycsb_cpp.Leveldb.Row.{deserialize_row, serialize_row}
use my_ycsb_cpp.Leveldb.Single.{deserialize, overwrite_all}
use my_ycsb_cpp.Lmdb.Store.{Mdb}

-- `if (ret) throw utils::Exception(what + mdb_strerror(ret));`
abbrev pub checked : {A : Type 0} → Bytes → KvStatus × A → Outcome A
checked what (fine, a) = done a
checked what (missing text, a) = thrown (exception (what ++ text))
checked what (failed text, a) = thrown (exception (what ++ text))

-- Read behind its mdb_get.
unfoldable pub read_got : KvStatus × Bytes → Option (List Bytes) → Outcome (Status × List Field)
unfolding deserialize
read_got (missing text, data_) fields = done (k_not_found, [])
read_got (failed text, data_) fields = thrown (exception (lit "Read mdb_get: " ++ text))
read_got (fine, data_) fields = do values ← deserialize data_ fields; done (k_ok, values)

module _ (db : Mdb) where
  unfoldable pub read : db.State → Bytes → Option (List Bytes) → Outcome (Status × List Field)
  unfolding read_got
  read s key fields = do
    txn ← checked (lit "Read mdb_txn_begin: ") (db.txn_begin s true)
    read_got (db.get txn key) fields

  -- The loop of Scan, by the rounds left and what the cursor returned last. It ends at any return
  -- code but zero.
  unfoldable pub scan_loop :
      ℕ → KvStatus × Bytes × db.Cursor → Option (List Bytes) → Outcome (List (List Field))
  unfolding deserialize
  scan_loop zero at fields = done []
  scan_loop (suc rounds) (fine, data_, cursor) fields = do
    values ← deserialize data_ fields
    rest ← scan_loop rounds (db.cursor_next cursor) fields
    done (values ∷ rest)
  scan_loop (suc rounds) (missing text, data_, cursor) fields = done []
  scan_loop (suc rounds) (failed text, data_, cursor) fields = done []

  -- Scan behind its first mdb_cursor_get.
  unfoldable pub scan_set :
      ℤ → KvStatus × Bytes × db.Cursor → Option (List Bytes) → Outcome (Status × List (List Field))
  unfolding scan_loop
  scan_set len (missing text, data_, cursor) fields = done (k_not_found, [])
  scan_set len (failed text, data_, cursor) fields =
      thrown (exception (lit "Scan mdb_cursor_get: " ++ text))
  scan_set len (fine, data_, cursor) fields = do
    rows ← scan_loop (pos_part len) (fine, data_, cursor) fields
    done (k_ok, rows)

  unfoldable pub scan :
      db.State → Bytes → ℤ → Option (List Bytes) → Outcome (Status × List (List Field))
  unfolding scan_set
  scan s key len fields = do
    txn ← checked (lit "Scan mdb_txn_begin: ") (db.txn_begin s false)
    cursor ← checked (lit "Scan mdb_cursor_open: ") (db.cursor_open txn)
    scan_set len (db.cursor_set cursor key) fields

  unfoldable pub update : db.State → Bytes → List Field → Outcome (Status × db.State)
  unfolding deserialize_row overwrite_all serialize_row
  update s key values = do
    txn ← checked (lit "Update mdb_txn_begin: ") (db.txn_begin s false)
    data_ ← checked (lit "Update mdb_get: ") (db.get txn key)
    current_values ← deserialize_row data_
    let row = serialize_row (overwrite_all current_values values)
    txn' ← checked (lit "Update mdb_put: ") (db.put txn key row)
    s' ← checked (lit "Update mdb_txn_commit: ") (db.txn_commit s txn')
    done (k_ok, s')

  unfoldable pub insert : db.State → Bytes → List Field → Outcome (Status × db.State)
  unfolding serialize_row
  insert s key values = do
    txn ← checked (lit "Insert mdb_txn_begin: ") (db.txn_begin s false)
    txn' ← checked (lit "Insert mdb_put: ") (db.put txn key (serialize_row values))
    s' ← checked (lit "Insert mdb_txn_commit: ") (db.txn_commit s txn')
    done (k_ok, s')

  unfoldable pub delete : db.State → Bytes → Outcome (Status × db.State)
  delete s key = do
    txn ← checked (lit "Delete mdb_txn_begin: ") (db.txn_begin s false)
    txn' ← checked (lit "Delete mdb_del: ") (db.del txn key)
    s' ← checked (lit "Delete mdb_txn_commit: ") (db.txn_commit s txn')
    done (k_ok, s')
