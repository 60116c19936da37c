-- ===== src/Rocksdb/Single/Refines.antt =====
-- The operations of rocksdb/rocksdb_db.cc return what those of leveldb/leveldb_db.cc return.
use my_ycsb_cpp.Prelude.{map, All, ◌≡◌, List, [], Option, none}
use my_ycsb_cpp.Prelude.Int.{ℤ, pos}
use my_ycsb_cpp.Prelude.Bytes.{Bytes, lit}
use my_ycsb_cpp.Prelude.Outcome.{done, SameDone, SameDone-bind}
use my_ycsb_cpp.Db.Table.{
  Table, Request, answers, Operations, serve_all, Serves, serve_all-answers, reading, view,
}
use my_ycsb_cpp.Db.Table.Follows.{serve-Follows, Follows, follow_reading}
use my_ycsb_cpp.Leveldb.Single.Stored.{Represents, Accepts, FitsRow}
use my_ycsb_cpp.Leveldb.Single.Refines.{serve-answer}
use my_ycsb_cpp.Db.{Field, Status}
use my_ycsb_cpp.Leveldb.Store.{Kv, KvLaws, KvStatus, fine, missing, failed}
use my_ycsb_cpp.Leveldb.Row.{deserialize_row, serialize_row}
use my_ycsb_cpp.Leveldb.Single
use my_ycsb_cpp.Leveldb.Single.{or_fail}
use my_ycsb_cpp.Rocksdb.Single.{
  read_got, update_got, read_single, scan_single, insert_single, update_single, delete_single,
}

read_got-SameDone :
    (got : KvStatus × Bytes) (fields : Option (List Bytes))
    → SameDone (Single.read_got got fields) (read_got got fields)
unfolding Single.read_got read_got
read_got-SameDone (fine, data_) fields = (λ x e. e, λ x e. e)
read_got-SameDone (missing text, data_) fields = (λ x e. e, λ x e. e)
read_got-SameDone (failed text, data_) fields = (λ x e. cc, λ x e. cc)

pub or_fail-SameDone :
    (kv : Kv) (what what' : Bytes) (status : KvStatus) (s : kv.State)
    → SameDone (or_fail kv what status s) (or_fail kv what' status s)
or_fail-SameDone kv what what' fine s = (λ x e. e, λ x e. e)
or_fail-SameDone kv what what' (missing text) s = (λ x e. cc, λ x e. cc)
or_fail-SameDone kv what what' (failed text) s = (λ x e. cc, λ x e. cc)

update_got-SameDone :
    (kv : Kv) (s : kv.State) (key : Bytes) (values : List Field) (got : KvStatus × Bytes)
    → SameDone (Single.update_got kv s key values got) (update_got kv s key values got)
unfolding Single.update_got update_got
update_got-SameDone kv s key values (fine, data_) = SameDone-bind (deserialize_row data_) _ _ λ cur.
    let put = kv.put s key (serialize_row (Single.overwrite_all cur values)) in
    or_fail-SameDone kv (lit "LevelDB Put: ") (lit "RocksDB Put: ") put.0 put.1
update_got-SameDone kv s key values (missing text, data_) = (λ x e. e, λ x e. e)
update_got-SameDone kv s key values (failed text, data_) = (λ x e. cc, λ x e. cc)

-- Over the same store, the reads, scans, inserts, updates and deletes of the RocksDB binding return
-- what those of the LevelDB binding in the format `single` return, with the same state behind them,
-- and return when those do.
pub single-SameDone :
    (kv : Kv) (s : kv.State) (key : Bytes) (values : List Field) (len : ℤ)
    (fields : Option (List Bytes))
    → SameDone (Single.read_single_entry kv s key fields) (read_single kv s key fields)
      × SameDone (Single.scan_single_entry kv s key len fields) (scan_single kv s key len fields)
      × SameDone (Single.insert_single_entry kv s key values) (insert_single kv s key values)
      × SameDone (Single.update_single_entry kv s key values) (update_single kv s key values)
      × SameDone (Single.delete_single_entry kv s key) (delete_single kv s key)
unfolding Single.read_single_entry read_single Single.scan_single_entry scan_single
    Single.insert_single_entry insert_single Single.update_single_entry update_single
    Single.delete_single_entry delete_single
single-SameDone kv s key values len fields = (
  read_got-SameDone (kv.get s key) fields,
  (λ x e. e, λ x e. e),
  or_fail-SameDone kv (lit "LevelDB Put: ") (lit "RocksDB Put: ")
      (kv.put s key (serialize_row values)).0 (kv.put s key (serialize_row values)).1,
  update_got-SameDone kv s key values (kv.get s key),
  or_fail-SameDone kv (lit "LevelDB Delete: ") (lit "RocksDB Delete: ") (kv.delete s key).0
      (kv.delete s key).1,
)

abbrev pub operations : (kv : Kv) → Operations kv.State
operations kv = record {
  read = λ s key fields. reading s (read_single kv s key fields);
  insert = insert_single kv;
  update = update_single kv;
  delete = delete_single kv;
}

operations-Follows : (kv : Kv) → Follows kv.State (Single.Refines.operations kv) (operations kv)
operations-Follows kv = record {
  read = λ s key fields. follow_reading s _ _ (single-SameDone kv s key [] (pos 0) fields).0;
  insert = λ s key values. (single-SameDone kv s key values (pos 0) none).2.0;
  update = λ s key values. (single-SameDone kv s key values (pos 0) none).3.0;
  delete = λ s key. (single-SameDone kv s key [] (pos 0) none).4.0;
}

-- Over a store that accepts every write, any sequence of reads of a record or of one field, inserts,
-- updates and deletes of the RocksDB binding returns, and replies as the table of records does, in
-- status and in the value of each field; and the store stands for the table after it. Names and
-- values are shorter than 2^32 bytes.
pub rocksdb_refines_table :
    (kv : Kv)
    → KvLaws kv
    → Accepts kv
    → (s : kv.State) (t : Table) (requests : List Request) → Represents kv s t
    → All FitsRow requests
    → (replies : List (Status × List Field)) × (s' : kv.State) × (serve_all
          (operations kv)
          s
          requests
        ≡ done (replies, s'))
      × (map view replies ≡ (answers t requests).0)
      × Represents kv s' (answers t requests).1
rocksdb_refines_table kv laws accepts s t requests h fits =
    serve_all-answers (operations kv) (Represents kv) FitsRow one s t requests h fits
  where
    one :
        (s : kv.State) (t : Table) (request : Request)
        → Represents kv s t
        → FitsRow request
        → Serves (operations kv) (Represents kv) s t request
    one s t request h fits =
        let (reply, s', e, same, h') = serve-answer kv laws accepts s t request h fits in
        (
          reply,
          s',
          serve-Follows (Single.Refines.operations kv) (operations kv) s request (reply, s')
              (operations-Follows kv) e,
          same,
          h',
        )
