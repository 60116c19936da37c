-- ===== src/Lmdb/Transactions/Refines.antt =====
-- lmdb/lmdb_db.cc keeps to the table of records, where no missing key is updated or deleted.
use my_ycsb_cpp.Prelude.{◌≡◌, some, All}
use my_ycsb_cpp.Prelude.Bytes.{Bytes}
use my_ycsb_cpp.Db.Table.{
  Record, Table, Request, read_all, read_field, insert, update, delete, Operations, reading,
}
use my_ycsb_cpp.Leveldb.Row.RoundTrip.{FitsWord}
use my_ycsb_cpp.Leveldb.Row.Kept.{Kept}
use my_ycsb_cpp.Lmdb.Store.{Mdb, MdbLaws}
use my_ycsb_cpp.Lmdb.Transactions
use my_ycsb_cpp.Lmdb.Transactions.{checked}

-- A request on keys that are there, where it updates or deletes, whose names and values are shorter
-- than 2^32 bytes.
abbrev pub FitsTable : Table → Request → Type 0
FitsTable t (read_all key) = Unit
FitsTable t (read_field key name) = Unit
FitsTable t (insert key values) = All FitsWord values
FitsTable t (update key values) = All FitsWord values × ((r : Record) × (t key ≡ some r))
FitsTable t (delete key) = (r : Record) × (t key ≡ some r)

abbrev pub operations : (db : Mdb) → Operations db.State
operations db = record {
  read = λ s key fields. reading s (Transactions.read db s key fields);
  insert = Transactions.insert db;
  update = Transactions.update db;
  delete = Transactions.delete db;
}

module _ (db : Mdb) (laws : MdbLaws db) where
  abbrev pub Represents : db.State → Table → Type 0
  Represents s t = (key : Bytes) → Kept (laws.content s key) (t key)
