-- ===== src/Sqlite.antt =====
-- The binding of SQLite, sqlite/sqlite_db.cc, and its queries, sqlite/query_builder.h.
pub mod Queries
pub mod Store
pub mod Statements
pub mod Instance
