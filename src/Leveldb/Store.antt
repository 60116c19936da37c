-- ===== src/Leveldb/Store.antt =====
-- The parts of LevelDB that leveldb/leveldb_db.cc calls, and of RocksDB that rocksdb/rocksdb_db.cc and
-- its variants call, as an interface, and what their documentation says of them: Get returns what was
-- Put last.
use my_ycsb_cpp.Prelude.{◌≡◌, ◌≢◌, List}
use my_ycsb_cpp.Prelude.Bytes.{Bytes}

-- leveldb::Status, with the text of ToString: `missing` is IsNotFound.
pub data KvStatus : Type 0 where
  fine : KvStatus
  missing failed : Bytes → KvStatus

-- What a leveldb::WriteBatch holds.
pub data BatchOp : Type 0 where
  batch_put : Bytes → Bytes → BatchOp
  batch_delete : Bytes → BatchOp

-- An iterator, once it is positioned, is the list of the entries from there on.
pub record Kv : Type 1 where
  pub State : Type 0
  pub get : State → Bytes → KvStatus × Bytes
  pub put : State → Bytes → Bytes → KvStatus × State
  pub delete : State → Bytes → KvStatus × State
  pub write : State → List BatchOp → KvStatus × State
  pub seek : State → Bytes → List (Bytes × Bytes)

-- A Put that succeeds sets its key; a Delete that succeeds removes it. Neither touches another key.
pub record KvLaws (kv : Kv) : Type 0 where
  pub get_put :
      (s : kv.State) (key data_ : Bytes)
      → (kv.put s key data_).0 ≡ fine
      → kv.get (kv.put s key data_).1 key ≡ (fine, data_)
  pub get_put_other :
      (s : kv.State) (key data_ other : Bytes)
      → other ≢ key
      → kv.get (kv.put s key data_).1 other ≡ kv.get s other
  pub get_delete :
      (s : kv.State) (key : Bytes)
      → (kv.delete s key).0 ≡ fine
      → (text : Bytes) × ((kv.get (kv.delete s key).1 key).0 ≡ missing text)
  pub get_delete_other :
      (s : kv.State) (key other : Bytes)
      → other ≢ key
      → kv.get (kv.delete s key).1 other ≡ kv.get s other
