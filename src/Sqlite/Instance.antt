-- ===== src/Sqlite/Instance.antt =====
-- Init and Cleanup of sqlite/sqlite_db.cc, with OpenDB, SetPragma and PrepareQueries. Both run under
-- one mutex, so that each is one step.
pub mod Prepared
use my_ycsb_cpp.Prelude.{
  ℕ, zero, suc, ◌+◌, Bool, true, false, not, List, [], ◌∷◌, ◌++◌, Option, none, some, if◌then◌else◌,
}
use my_ycsb_cpp.Prelude.Int.{ℤ, pos, negsuc, ◌+ℤ◌, ◌-ℤ◌}
use my_ycsb_cpp.Prelude.Bytes.{Bytes, lit, bytes_eq}
use my_ycsb_cpp.Prelude.Result.{Result, ok, err, exception, require, ◌>>=◌}
use my_ycsb_cpp.Utils.Text.Numbers.{stoi, to_string}
use my_ycsb_cpp.Utils.Properties.{Properties, get_property}
use my_ycsb_cpp.Workload.Builders.{u64_of_int}
use my_ycsb_cpp.Workload.Keys.{field_name}
use my_ycsb_cpp.Sqlite.Queries.{
  build_create_table_query, build_read_query, build_insert_query, build_delete_query,
  build_update_query, build_scan_query,
}
use my_ycsb_cpp.Sqlite.Store.{Sqlite, Rc, sqlite_ok, failed}
use my_ycsb_cpp.Sqlite.Statements.{SqliteDb}

-- What all instances share, but for the connection.
pub record Shared : Type 0 where
  pub table_name : Bytes
  pub key : Bytes
  pub field_prefix : Bytes
  pub field_count : ℕ

-- `if (rc != SQLITE_OK) throw utils::Exception(what + sqlite3_errmsg(db_));`
abbrev pub checked_rc : {A : Type 0} → Bytes → Rc × A → Result A
checked_rc what (sqlite_ok, a) = ok a
checked_rc what (failed text, a) = err (exception (what ++ text))

-- std::to_string of an int
unfoldable pub to_string_int : ℤ → Bytes
unfolding to_string
to_string_int (pos n) = to_string n
to_string_int (negsuc n) = lit "-" ++ to_string (n + 1)

-- The names of the fields from number `i` on, with the rounds left.
unfoldable pub field_names : Bytes → ℕ → ℕ → List Bytes
unfolding field_name
field_names prefix i zero = []
field_names prefix i (suc rounds) = field_name prefix i ∷ field_names prefix (i + 1) rounds

abbrev pub is_zero : ℤ → Bool
is_zero (pos zero) = true
is_zero _ = false

module _ (lib : Sqlite) where
  -- One statement for each field.
  unfoldable pub prepare_each :
      lib.Conn → (List Bytes → Bytes) → List Bytes → Result (List (Bytes × lib.Stmt))
  prepare_each c query [] = ok []
  prepare_each c query (name ∷ names) = do
    stmt ← checked_rc (lit "prepare: ") (lib.prepare c (query (name ∷ [])))
    rest ← prepare_each c query names
    ok ((name, stmt) ∷ rest)

  unfoldable pub prepare_queries : Shared → lib.Conn → Result (SqliteDb lib)
  unfolding field_names prepare_each build_read_query build_scan_query build_update_query
      build_insert_query build_delete_query
  prepare_queries sh c = do
    let fields = field_names sh.field_prefix 0 sh.field_count
    let read_query = build_read_query sh.table_name sh.key
    let scan_query = build_scan_query sh.table_name sh.key
    let update_query = build_update_query sh.table_name sh.key
    read_all ← checked_rc (lit "prepare: ") (lib.prepare c (read_query fields))
    read_field ← prepare_each c read_query fields
    scan_all ← checked_rc (lit "prepare: ") (lib.prepare c (scan_query fields))
    scan_field ← prepare_each c scan_query fields
    update_all ← checked_rc (lit "prepare: ") (lib.prepare c (update_query fields))
    update_field ← prepare_each c update_query fields
    insert ←
        checked_rc (lit "prepare: ")
          (lib.prepare c (build_insert_query sh.table_name sh.key fields))
    delete ← checked_rc (lit "prepare: ") (lib.prepare c (build_delete_query sh.table_name sh.key))
    ok (record {
      table_name = sh.table_name;
      key = sh.key;
      field_count = sh.field_count;
      stmt_read_all = read_all;
      stmt_read_field = read_field;
      stmt_scan_all = scan_all;
      stmt_scan_field = scan_field;
      stmt_update_all = update_all;
      stmt_update_field = update_field;
      stmt_insert = insert;
      stmt_delete = delete;
    })

  -- sqlite3_open_v2 and sqlite3_close, over the files.
  pub record Files : Type 1 where
    pub State : Type 0
    pub open_v2 : State → Bytes → Rc × lib.Conn

  -- The name of the table is looked up under its default, `usertable`, and not under `table`.
  unfoldable pub open_db : (files : Files) → Properties → files.State → Result (Shared × lib.Conn)
  unfolding get_property bytes_eq stoi field_names build_create_table_query
  open_db files props w = do
    let db_path = get_property props (lit "sqlite.dbpath") []
    _ ← require (not (bytes_eq db_path [])) (exception (lit "SQLite db path is missing"))
    c ← checked_rc (lit "Init open: ") (files.open_v2 w db_path)
    field_count ← stoi (get_property props (lit "fieldcount") (lit "10"))
    let sh : Shared = record {
      table_name = get_property props (lit "usertable") (lit "usertable");
      key = get_property props (lit "sqlite.primary_key") (lit "user_id");
      field_prefix = get_property props (lit "fieldnameprefix") (lit "field");
      field_count = u64_of_int field_count;
    }
    let query =
        build_create_table_query sh.table_name sh.key (field_names sh.field_prefix 0 sh.field_count)
    c' ←
        (if bytes_eq (get_property props (lit "sqlite.create_table") (lit "true")) (lit "true")
          then checked_rc (lit "Create table: ") (lib.exec c query)
          else ok c)
    ok (sh, c')

  unfoldable pub set_pragma : Properties → lib.Conn → Result lib.Conn
  unfolding get_property stoi to_string_int
  set_pragma props c = do
    cache_size ← stoi (get_property props (lit "sqlite.cache_size") (lit "-2000"))
    c₁ ←
        checked_rc (lit "Init exec cache_size: ")
          (lib.exec c (lit "PRAGMA cache_size = " ++ to_string_int cache_size))
    page_size ← stoi (get_property props (lit "sqlite.page_size") (lit "4096"))
    c₂ ←
        checked_rc (lit "Init exec page_size: ")
          (lib.exec c₁ (lit "PRAGMA page_size = " ++ to_string_int page_size))
    let journal_mode = get_property props (lit "sqlite.journal_mode") (lit "WAL")
    c₃ ←
        checked_rc (lit "Init exec journal_mode: ")
          (lib.exec c₂ (lit "PRAGMA journal_mode = " ++ journal_mode))
    let synchronous = get_property props (lit "sqlite.synchronous") (lit "NORMAL")
    checked_rc (lit "Init exec synchronous: ")
        (lib.exec c₃ (lit "PRAGMA synchronous = " ++ synchronous))

  -- What PrepareQueries makes of the shared connection; a connection that is null is SQLITE_MISUSE.
  unfoldable pub prepare_shared : Option (Shared × lib.Conn) → Result (SqliteDb lib)
  unfolding prepare_queries
  prepare_shared none = err (exception (lit "prepare: out of memory"))
  prepare_shared (some (sh, c)) = prepare_queries sh c

  -- The statics: what OpenDB set, and ref_cnt_.
  pub record Statics : Type 0 where
    pub opened : Option (Shared × lib.Conn)
    pub ref_cnt : ℤ

  -- `if (ref_cnt_++ == 0) { OpenDB(); SetPragma(); }`, by the counter before
  unfoldable pub open_from :
      (files : Files)
      → ℤ
      → Properties
      → Option (Shared × lib.Conn)
      → files.State
      → Result (Option (Shared × lib.Conn))
  unfolding open_db set_pragma
  open_from files (pos zero) props opened w = do
    got ← open_db files props w
    c ← set_pragma props got.1
    ok (some (got.0, c))
  open_from files ref_cnt props opened w = ok opened

  unfoldable pub init :
      (files : Files) → Properties → Statics → files.State → Result (SqliteDb lib × Statics)
  unfolding open_from prepare_shared ◌+ℤ◌
  init files props st w = do
    opened ← open_from files st.ref_cnt props st.opened w
    db ← prepare_shared opened
    ok (db, record { opened = opened; ref_cnt = st.ref_cnt +ℤ pos 1 })

  -- The statements are finalized, and the last Cleanup closes the connection.
  unfoldable pub cleanup : Statics → Statics × Bool
  unfolding ◌-ℤ◌
  cleanup st = let left = st.ref_cnt -ℤ pos 1 in (record st { ref_cnt = left }, is_zero left)
