-- ===== src/Sqlite/Statements.antt =====
-- Read, Scan, Update, Insert and Delete of sqlite/sqlite_db.cc, over the statements that
-- PrepareQueries has prepared.
pub mod Bounds
use my_ycsb_cpp.Prelude.{
  ℕ, zero, suc, ◌+◌, Bool, true, false, not, List, [], ◌∷◌, ◌++◌, Option, none, some, map, length,
  ◌==◌, if◌then◌else◌,
}
use my_ycsb_cpp.Prelude.Int.{ℤ, pos, pos_part}
use my_ycsb_cpp.Prelude.Bytes.{Bytes, lit, bytes_eq}
use my_ycsb_cpp.Prelude.Result.{exception}
use my_ycsb_cpp.Prelude.Outcome.{Outcome, done, thrown, undefined, stuck, ◌>>=◌}
use my_ycsb_cpp.Db.{Field, Status, k_ok, k_error, k_not_found}
use my_ycsb_cpp.Sqlite.Queries.{build_read_query, build_scan_query, build_update_query}
use my_ycsb_cpp.Sqlite.Store.{
  Sqlite, Rc, sqlite_ok, failed, Step, sqlite_row, sqlite_done, other_rc,
}

-- The shared names and the statements of an instance.
pub record SqliteDb (lib : Sqlite) : Type 0 where
  pub table_name : Bytes
  pub key : Bytes
  pub field_count : ℕ
  pub stmt_read_all : lib.Stmt
  pub stmt_read_field : List (Bytes × lib.Stmt)
  pub stmt_scan_all : lib.Stmt
  pub stmt_scan_field : List (Bytes × lib.Stmt)
  pub stmt_update_all : lib.Stmt
  pub stmt_update_field : List (Bytes × lib.Stmt)
  pub stmt_insert : lib.Stmt
  pub stmt_delete : lib.Stmt

-- operator[] of a map of statements: a name that is not there is given a null pointer.
unfoldable pub find_stmt : {A : Type 0} → List (Bytes × A) → Bytes → Option A
unfolding bytes_eq
find_stmt [] name = none
find_stmt ((n, a) ∷ stmts) name = if bytes_eq n name then some a else find_stmt stmts name

module _ (lib : Sqlite) (db : SqliteDb lib) where
  -- SQLite3Prepare
  unfoldable pub prepared : Rc × lib.Stmt → Outcome (Option lib.Stmt)
  prepared (sqlite_ok, stmt) = done (some stmt)
  prepared (failed text, stmt) = thrown (exception (lit "prepare: " ++ text))

  -- The statement for some fields: that of all fields, that of one field, or a temporary one.
  unfoldable pub statement_for :
      lib.Conn
      → lib.Stmt
      → List (Bytes × lib.Stmt)
      → (List Bytes → Bytes)
      → List Bytes
      → Outcome (Option lib.Stmt)
  unfolding prepared find_stmt
  statement_for c all_fields by_field query [] =
      if db.field_count == 0 then done (some all_fields) else prepared (lib.prepare c (query []))
  statement_for c all_fields by_field query (name ∷ []) =
      if db.field_count == 1 then done (some all_fields) else done (find_stmt by_field name)
  statement_for c all_fields by_field query (name ∷ other ∷ names) =
      if length (name ∷ other ∷ names) == db.field_count
      then done (some all_fields)
      else prepared (lib.prepare c (query (name ∷ other ∷ names)))

  -- The number of fields of a request.
  abbrev pub field_cnt : Option (List Bytes) → ℕ
  field_cnt none = db.field_count
  field_cnt (some names) = length names

  abbrev pub statement_of :
      lib.Conn
      → lib.Stmt
      → List (Bytes × lib.Stmt)
      → (List Bytes → Bytes)
      → Option (List Bytes)
      → Outcome (Option lib.Stmt)
  statement_of c all_fields by_field query none = done (some all_fields)
  statement_of c all_fields by_field query (some names) =
      statement_for c all_fields by_field query names

  -- A call of sqlite3_bind: none if it fails. A null pointer is SQLITE_MISUSE.
  unfoldable pub bound : Option lib.Stmt → (lib.Stmt → Bool × lib.Stmt) → Option lib.Stmt
  bound none bind = none
  bound (some stmt) bind = if (bind stmt).0 then some (bind stmt).1 else none

  -- The loop that binds values from an index on.
  unfoldable pub bind_values : Option lib.Stmt → ℕ → List Field → Option lib.Stmt
  unfolding bound
  bind_values stmt i [] = stmt
  bind_values stmt i (field ∷ values) =
      bind_values (bound stmt (λ s. lib.bind_text s i field.value)) (i + 1) values

  -- A column as a field. A null pointer is no std::string.
  abbrev pub column : Bytes → Option Bytes → Outcome Field
  column name none = undefined
  column name (some value) = done (record { name = name; value = value })

  -- The columns of a row from an index on.
  unfoldable pub columns : lib.Stmt → ℕ → ℕ → Outcome (List Field)
  columns stmt i zero = done []
  columns stmt i (suc rounds) = do
    field ← column (lib.column_name stmt i) (lib.column_text stmt i)
    rest ← columns stmt (i + 1) rounds
    done (field ∷ rest)

  -- Read behind its sqlite3_step.
  unfoldable pub read_stepped :
      ℕ → Step × (lib.Stmt × lib.Conn) → Outcome ((Status × List Field) × lib.Conn)
  unfolding columns
  read_stepped cnt (sqlite_row, (stmt, c)) = do
    values ← columns stmt 0 cnt
    done ((k_ok, values), c)
  read_stepped cnt (sqlite_done, (stmt, c)) = done ((k_not_found, []), c)
  read_stepped cnt (other_rc, (stmt, c)) = done ((k_not_found, []), c)

  unfoldable pub read_bound :
      lib.Conn → ℕ → Option lib.Stmt → Outcome ((Status × List Field) × lib.Conn)
  unfolding read_stepped
  read_bound c cnt none = done ((k_error, []), c)
  read_bound c cnt (some stmt) = read_stepped cnt (lib.step c stmt)

  unfoldable pub read :
      lib.Conn → Bytes → Option (List Bytes) → Outcome ((Status × List Field) × lib.Conn)
  unfolding statement_for build_read_query bound read_bound
  read c key fields = do
    stmt ←
        statement_of c db.stmt_read_all db.stmt_read_field (build_read_query db.table_name db.key)
          fields
    read_bound c (field_cnt fields) (bound stmt (λ s. lib.bind_text s 1 key))

  -- `if (rc != SQLITE_ROW) break;`
  abbrev pub unless_row :
      Step
      → lib.Conn
      → Outcome (List (List Field) × lib.Conn)
      → Outcome (List (List Field) × lib.Conn)
  unless_row sqlite_row c row = row
  unless_row sqlite_done c row = done ([], c)
  unless_row other_rc c row = done ([], c)

  -- The loop of Scan.
  unfoldable pub scan_loop : ℕ → ℕ → lib.Stmt → lib.Conn → Outcome (List (List Field) × lib.Conn)
  unfolding columns
  scan_loop zero cnt stmt c = done ([], c)
  scan_loop (suc rounds) cnt stmt c =
      let (rc, (stmt', c')) = lib.step c stmt in
      let row = (do
        values ← columns stmt' 1 cnt
        rest ← scan_loop rounds cnt stmt' c'
        done (values ∷ rest.0, rest.1)) in
      unless_row rc c' row

  -- `if (result.size() == 0) s = kNotFound;`
  abbrev pub scan_status : List (List Field) → Status
  scan_status [] = k_not_found
  scan_status (row ∷ rows) = k_ok

  unfoldable pub scan_bound :
      lib.Conn → ℕ → ℤ → Option lib.Stmt → Outcome ((Status × List (List Field)) × lib.Conn)
  unfolding scan_loop
  scan_bound c cnt len none = done ((k_error, []), c)
  scan_bound c cnt len (some stmt) = do
    got ← scan_loop (pos_part len) cnt stmt c
    done ((scan_status got.0, got.0), got.1)

  unfoldable pub scan :
      lib.Conn → Bytes → ℤ → Option (List Bytes) → Outcome ((Status × List (List Field)) × lib.Conn)
  unfolding statement_for build_scan_query bound scan_bound
  scan c key len fields = do
    stmt ←
        statement_of c db.stmt_scan_all db.stmt_scan_field (build_scan_query db.table_name db.key)
          fields
    scan_bound c (field_cnt fields) len
        (bound (bound stmt (λ s. lib.bind_text s 1 key)) (λ s. lib.bind_int s 2 len))

  -- A statement that returns no row, with all its values bound.
  unfoldable pub write_stepped : Step × (lib.Stmt × lib.Conn) → Status × lib.Conn
  write_stepped (sqlite_done, (stmt, c)) = (k_ok, c)
  write_stepped (sqlite_row, (stmt, c)) = (k_error, c)
  write_stepped (other_rc, (stmt, c)) = (k_error, c)

  unfoldable pub write_bound : lib.Conn → Option lib.Stmt → Outcome (Status × lib.Conn)
  unfolding write_stepped
  write_bound c none = done (k_error, c)
  write_bound c (some stmt) = done (write_stepped (lib.step c stmt))

  unfoldable pub update : lib.Conn → Bytes → List Field → Outcome (Status × lib.Conn)
  unfolding statement_for build_update_query bound bind_values write_bound
  update c key values = do
    stmt ←
        statement_for c db.stmt_update_all db.stmt_update_field
          (build_update_query db.table_name db.key) (map (λ (f : Field). f.name) values)
    write_bound c (bound (bind_values stmt 1 values) (λ s. lib.bind_text s (1 + length values) key))

  unfoldable pub insert : lib.Conn → Bytes → List Field → Outcome (Status × lib.Conn)
  unfolding bound bind_values write_bound
  insert c key values =
      if not (db.field_count == length values)
      then done (k_error, c)
      else write_bound c
          (bind_values (bound (some db.stmt_insert) (λ s. lib.bind_text s 1 key)) 2 values)

  unfoldable pub delete : lib.Conn → Bytes → Outcome (Status × lib.Conn)
  unfolding bound write_bound
  delete c key = write_bound c (bound (some db.stmt_delete) (λ s. lib.bind_text s 1 key))
