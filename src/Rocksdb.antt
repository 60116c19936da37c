-- ===== src/Rocksdb.antt =====
-- The binding of RocksDB, rocksdb/rocksdb_db.cc, and its variant with a range cache,
-- rocksdb_lorc/rocksdb_db.cc. Their rows are those of leveldb/leveldb_db.cc, whose SerializeRow,
-- DeserializeRow and DeserializeRowFilter they repeat.
pub mod Merge
pub mod Single
pub mod Lorc
pub mod Topling
pub mod Options
pub mod Instance
