-- ===== src/Sqlite/Store.antt =====
-- The parts of the library SQLite that sqlite/sqlite_db.cc calls, as an interface. Every operation
-- resets the statement that it used and clears its bindings, which makes it as it was prepared, so
-- that prepared statements are values.
use my_ycsb_cpp.Prelude.{ℕ, Bool, Option}
use my_ycsb_cpp.Prelude.Int.{ℤ}
use my_ycsb_cpp.Prelude.Bytes.{Bytes}

-- A return code: SQLITE_OK, or another with its sqlite3_errmsg.
pub data Rc : Type 0 where
  sqlite_ok : Rc
  failed : Bytes → Rc

-- What sqlite3_step returns: SQLITE_ROW, SQLITE_DONE, or another code.
pub data Step : Type 0 where
  sqlite_row sqlite_done other_rc : Step

pub record Sqlite : Type 1 where
  pub Conn : Type 0
  pub Stmt : Type 0
  pub prepare : Conn → Bytes → Rc × Stmt
  pub bind_text : Stmt → ℕ → Bytes → Bool × Stmt  -- whether it is SQLITE_OK
  pub bind_int : Stmt → ℕ → ℤ → Bool × Stmt
  pub step : Conn → Stmt → Step × (Stmt × Conn)
  pub column_name : Stmt → ℕ → Bytes
  pub column_text : Stmt → ℕ → Option Bytes  -- none for a null pointer
  pub exec : Conn → Bytes → Rc × Conn
