-- ===== src/Leveldb.antt =====
-- The LevelDB binding of leveldb/leveldb_db.cc, and the LSbM binding, its variant.
pub mod Row
pub mod Store
pub mod Single
pub mod Composite
pub mod Options
pub mod Instance
pub mod Dispatch
pub mod Lsbm
