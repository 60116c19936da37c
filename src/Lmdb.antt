-- ===== src/Lmdb.antt =====
-- The binding of LMDB, lmdb/lmdb_db.cc. Its rows are those of leveldb/leveldb_db.cc, whose
-- SerializeRow, DeserializeRow and DeserializeRowFilter it repeats.
pub mod Store
pub mod Transactions
pub mod Instance
