-- ===== src/Wiredtiger.antt =====
-- The binding of WiredTiger, wiredtiger/wiredtiger_db.cc. Its rows are those of
-- leveldb/leveldb_db.cc, whose SerializeRow, DeserializeRow and DeserializeRowFilter it repeats.
pub mod Store
pub mod Cursor
pub mod Instance
