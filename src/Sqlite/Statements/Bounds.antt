-- ===== src/Sqlite/Statements/Bounds.antt =====
-- What the statements of sqlite/sqlite_db.cc return, whatever SQLite does.
use my_ycsb_cpp.Prelude.{
  ℕ, zero, suc, ◌+◌, ◌≤◌, ◌≡◌, ◌≢◌, refl, sym, ap, subst, false, List, [], ◌∷◌, Option, none, some,
  length, ◌==◌, All, ◌⊎◌, inl, inr, arith,
}
use my_ycsb_cpp.Prelude.Int.{ℤ, pos_part}
use my_ycsb_cpp.Prelude.Bytes.{Bytes}
use my_ycsb_cpp.Prelude.Outcome.{Outcome, done, done_elim, done_injective}
use my_ycsb_cpp.Db.{Field, Status, k_ok, k_error, k_not_found}
use my_ycsb_cpp.Sqlite.Queries.{build_scan_query}
use my_ycsb_cpp.Sqlite.Store.{Sqlite, Step, sqlite_row, sqlite_done, other_rc}
use my_ycsb_cpp.Sqlite.Statements
use my_ycsb_cpp.Sqlite.Statements.{
  SqliteDb, find_stmt, statement_of, statement_for, field_cnt, column, columns, unless_row,
  scan_loop, scan_status, scan_bound, bound, read_bound,
}

-- Rows of as many fields as were asked for, at most so many.
abbrev pub Within : ℕ → ℕ → List (List Field) → Type 0
Within most cnt rows = (length rows ≤ most) × All (λ row. length row ≡ cnt) rows

module _ (lib : Sqlite) (db : SqliteDb lib) where
  length-columns :
      (stmt : lib.Stmt) (i rounds : ℕ) (values : List Field)
      → columns lib db stmt i rounds ≡ done values
      → length values ≡ rounds
  unfolding columns
  length-columns stmt i zero values e = ap length (done_injective (sym e))
  length-columns stmt i (suc rounds) values e =
      done_elim (column lib db (lib.column_name stmt i) (lib.column_text stmt i)) _ e
        λ field is_column e₁. done_elim (columns lib db stmt (i + 1) rounds) _ e₁ λ rest is_rest e₂.
          omega
            (arith, ap length (done_injective e₂), length-columns stmt (i + 1) rounds rest is_rest)

  none-Within :
      (most cnt : ℕ) (c : lib.Conn) (got : List (List Field) × lib.Conn)
      → done ([], c) ≡ done got
      → Within most cnt got.0
  none-Within most cnt c got e =
      subst (λ (g : List (List Field) × lib.Conn). Within most cnt g.0) (done_injective e)
        (omega arith, tt)

  unless_row-Within :
      (rc : Step) (most cnt : ℕ) (c : lib.Conn) (row : Outcome (List (List Field) × lib.Conn))
      (got : List (List Field) × lib.Conn)
      → (row ≡ done got → Within most cnt got.0)
      → unless_row lib db rc c row ≡ done got
      → Within most cnt got.0
  unless_row-Within sqlite_row most cnt c row got h e = h e
  unless_row-Within sqlite_done most cnt c row got h e = none-Within most cnt c got e
  unless_row-Within other_rc most cnt c row got h e = none-Within most cnt c got e

  scan_loop-Within :
      (rounds cnt : ℕ) (stmt : lib.Stmt) (c : lib.Conn) (got : List (List Field) × lib.Conn)
      → scan_loop lib db rounds cnt stmt c ≡ done got
      → Within rounds cnt got.0
  unfolding scan_loop
  scan_loop-Within zero cnt stmt c got e = none-Within 0 cnt c got e
  scan_loop-Within (suc rounds) cnt stmt c got e =
      let at = lib.step c stmt in
      unless_row-Within at.0 (suc rounds) cnt at.1.1 _ got
        (λ e₀. done_elim (columns lib db at.1.0 1 cnt) _ e₀ λ values is_row e₁.
          done_elim (scan_loop lib db rounds cnt at.1.0 at.1.1) _ e₁ λ rest is_rest e₂.
            let ih = scan_loop-Within rounds cnt at.1.0 at.1.1 rest is_rest in
            subst (λ (g : List (List Field) × lib.Conn). Within (suc rounds) cnt g.0)
              (done_injective e₂)
              (omega (arith, ih.0), (length-columns at.1.0 1 cnt values is_row, ih.1)))
        e

  -- A status for some rows: kOK if there are any; kNotFound or kError if there are none.
  abbrev pub IsStatus : Status → List (List Field) → Type 0
  IsStatus s [] = (s ≡ k_not_found) ⊎ (s ≡ k_error)
  IsStatus s (row ∷ rows) = s ≡ k_ok

  scan_status-IsStatus : (rows : List (List Field)) → IsStatus (scan_status lib db rows) rows
  scan_status-IsStatus [] = inl refl
  scan_status-IsStatus (row ∷ rows) = refl

  scan_bound-Within :
      (c : lib.Conn) (cnt : ℕ) (len : ℤ) (stmt : Option lib.Stmt)
      (got : (Status × List (List Field)) × lib.Conn)
      → scan_bound lib db c cnt len stmt ≡ done got
      → Within (pos_part len) cnt got.0.1 × IsStatus got.0.0 got.0.1
  unfolding scan_bound
  scan_bound-Within c cnt len none got e =
      subst
        (λ (g : (Status × List (List Field)) × lib.Conn).
          Within (pos_part len) cnt g.0.1 × IsStatus g.0.0 g.0.1)
        (done_injective e) ((omega arith, tt), inr refl)
  scan_bound-Within c cnt len (some stmt) got e =
      done_elim (scan_loop lib db (pos_part len) cnt stmt c) _ e λ rows is_rows e₁.
        subst
          (λ (g : (Status × List (List Field)) × lib.Conn).
            Within (pos_part len) cnt g.0.1 × IsStatus g.0.0 g.0.1)
          (done_injective e₁)
          (scan_loop-Within (pos_part len) cnt stmt c rows is_rows, scan_status-IsStatus rows.0)

  -- Whatever SQLite does, a scan that returns has at most as many rows as the length asked for, each
  -- with as many fields as the request names, or as configured; and its status is kOK if there is a
  -- row, and kNotFound or kError if there is none.
  pub scan-Within :
      (c : lib.Conn) (key : Bytes) (len : ℤ) (fields : Option (List Bytes))
      (got : (Status × List (List Field)) × lib.Conn)
      → Statements.scan lib db c key len fields ≡ done got
      → Within (pos_part len) (field_cnt lib db fields) got.0.1 × IsStatus got.0.0 got.0.1
  unfolding Statements.scan
  scan-Within c key len fields got e =
      done_elim
        (statement_of lib db c db.stmt_scan_all db.stmt_scan_field
          (build_scan_query db.table_name db.key) fields)
        _ e λ stmt is_stmt e₁. scan_bound-Within c (field_cnt lib db fields) len _ got e₁

  -- An insert of another number of fields than configured returns kError, and a read and a scan of
  -- one field that is not configured do so too, where more than one is; all leave the database as it
  -- was.
  pub misfits :
      (c : lib.Conn) (key name : Bytes) (values : List Field) (len : ℤ)
      → length values ≢ db.field_count
      → db.field_count ≢ 1
      → find_stmt db.stmt_read_field name ≡ none
      → find_stmt db.stmt_scan_field name ≡ none
      → (Statements.insert lib db c key values ≡ done (k_error, c))
        × (Statements.read lib db c key (some (name ∷ [])) ≡ done ((k_error, []), c))
        × (Statements.scan lib db c key len (some (name ∷ [])) ≡ done ((k_error, []), c))
  unfolding Statements.insert Statements.read Statements.scan statement_for bound read_bound
      scan_bound
  misfits c key name values len other more no_read no_scan =
      let fewer : (db.field_count == length values) ≡ false = ground arith in
      let several : (db.field_count == 1) ≡ false = ground arith in
      (rw fewer refl, rw (several, no_read) refl, rw (several, no_scan) refl)
