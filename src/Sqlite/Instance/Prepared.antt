-- ===== src/Sqlite/Instance/Prepared.antt =====
-- The statements that PrepareQueries of sqlite/sqlite_db.cc has prepared.
use my_ycsb_cpp.Prelude.{
  Bool, ℕ, zero, suc, ◌+◌, ◌<◌, ◌≤◌, ℕ_discrete, ◌≡◌, refl, sym, ap, ◌∙◌, subst, true, false, List,
  [], ◌∷◌, some, ◌⊎◌, inl, inr, arith, Bool-cases,
}
use my_ycsb_cpp.Prelude.Bytes.{Bytes, lit, bytes_eq, bytes_eq→eq, bytes_eq_refl}
use my_ycsb_cpp.Prelude.Result.{ok, ok_elim, ok_injective}
use my_ycsb_cpp.Workload.Keys.{field_name}
use my_ycsb_cpp.Sqlite.Queries.{
  build_read_query, build_scan_query, build_update_query, build_insert_query, build_delete_query,
}
use my_ycsb_cpp.Sqlite.Store.{Sqlite, Rc, sqlite_ok, failed}
use my_ycsb_cpp.Sqlite.Statements.{SqliteDb, find_stmt}
use my_ycsb_cpp.Sqlite.Instance.{Shared, checked_rc, field_names, prepare_each, prepare_queries}

abbrev pub IsIn : Bytes → List Bytes → Type 0
IsIn name [] = ⊥
IsIn name (n ∷ names) = (n ≡ name) ⊎ IsIn name names

different : (b : Bool) → b ≡ false → b ≡ true → ⊥
different b e e₁ = cc

field_names-IsIn :
    (prefix : Bytes) (from rounds i : ℕ)
    → from ≤ i
    → i < from + rounds
    → IsIn (field_name prefix i) (field_names prefix from rounds)
unfolding field_names
field_names-IsIn prefix from zero i low high = absurd (omega arith)
field_names-IsIn prefix from (suc rounds) i low high = elim (ℕ_discrete from i) [
  | yes e ↦ inl (ap (field_name prefix) e)
  | no ne ↦ inr (field_names-IsIn prefix (from + 1) rounds i (omega (arith, ne)) (omega arith))
]

module _ (lib : Sqlite) where
  -- A statement that was prepared for a query.
  abbrev pub IsFor : lib.Conn → Bytes → List (Bytes × lib.Stmt) → Bytes → Type 0
  IsFor c query stmts name =
      (stmt : lib.Stmt) × (find_stmt stmts name ≡ some stmt)
      × (lib.prepare c query ≡ (sqlite_ok, stmt))

  prepared_ok :
      (r : Rc × lib.Stmt) (stmt : lib.Stmt)
      → checked_rc (lit "prepare: ") r ≡ ok stmt
      → r ≡ (sqlite_ok, stmt)
  prepared_ok (sqlite_ok, a) stmt e = ap (λ s. (sqlite_ok, s)) (ok_injective (λ s. s) e)
  prepared_ok (failed text, a) stmt e = cc

  -- The statement of another name stands where it stood once one is put in front.
  behind :
      (c : lib.Conn) (query name n : Bytes) (stmt : lib.Stmt) (rest : List (Bytes × lib.Stmt))
      → bytes_eq n name ≡ false
      → IsFor c query rest name
      → IsFor c query ((n, stmt) ∷ rest) name
  behind c query name n stmt rest other (found, is_found, p) =
      (found, (unfold find_stmt in rw other is_found), p)

  among :
      (n name : Bytes) (names : List Bytes)
      → bytes_eq n name ≡ false
      → IsIn name (n ∷ names)
      → IsIn name names
  among n name names other (inl e) =
      absurd
        (different (bytes_eq n name) other (subst (λ m. bytes_eq n m ≡ true) e (bytes_eq_refl n)))
  among n name names other (inr h) = h

  prepare_each-IsFor :
      (c : lib.Conn) (query : List Bytes → Bytes) (names : List Bytes)
      (stmts : List (Bytes × lib.Stmt)) (name : Bytes)
      → prepare_each lib c query names ≡ ok stmts
      → IsIn name names
      → IsFor c (query (name ∷ [])) stmts name
  unfolding prepare_each
  prepare_each-IsFor c query [] stmts name e h = absurd h
  prepare_each-IsFor c query (n ∷ names) stmts name e h =
      ok_elim (checked_rc (lit "prepare: ") (lib.prepare c (query (n ∷ [])))) _ e λ stmt is_stmt e₁.
        ok_elim (prepare_each lib c query names) _ e₁ λ rest is_rest e₂.
          subst (λ all_. IsFor c (query (name ∷ [])) all_ name) (ok_injective (λ s. s) e₂)
            (elim (Bool-cases (bytes_eq n name)) [
              | inl same ↦ (
                stmt,
                unfold find_stmt in rw same refl,
                ap (λ m. lib.prepare c (query (m ∷ []))) (sym (bytes_eq→eq n name same))
                    ∙ prepared_ok (lib.prepare c (query (n ∷ []))) stmt is_stmt,
              )
              | inr other ↦
                  behind c (query (name ∷ [])) name n stmt rest other (
                    prepare_each-IsFor c query names rest name is_rest (among n name names other h))
            ])

  -- What the statements of an instance were prepared for: all its fields, and each by itself.
  pub record IsPrepared (sh : Shared) (c : lib.Conn) (db : SqliteDb lib) : Type 0 where
    pub read_all :
        lib.prepare c
          (build_read_query sh.table_name sh.key (field_names sh.field_prefix 0 sh.field_count))
        ≡ (sqlite_ok, db.stmt_read_all)
    pub scan_all :
        lib.prepare c
          (build_scan_query sh.table_name sh.key (field_names sh.field_prefix 0 sh.field_count))
        ≡ (sqlite_ok, db.stmt_scan_all)
    pub update_all :
        lib.prepare c
          (build_update_query sh.table_name sh.key (field_names sh.field_prefix 0 sh.field_count))
        ≡ (sqlite_ok, db.stmt_update_all)
    pub insert_all :
        lib.prepare c
          (build_insert_query sh.table_name sh.key (field_names sh.field_prefix 0 sh.field_count))
        ≡ (sqlite_ok, db.stmt_insert)
    pub delete_all :
        lib.prepare c (build_delete_query sh.table_name sh.key) ≡ (sqlite_ok, db.stmt_delete)
    pub each_field :
        (i : ℕ)
        → i < sh.field_count
        → IsFor c
            (build_read_query sh.table_name sh.key (field_name sh.field_prefix i ∷ []))
            db.stmt_read_field
            (field_name sh.field_prefix i)
          × IsFor c
              (build_scan_query sh.table_name sh.key (field_name sh.field_prefix i ∷ []))
              db.stmt_scan_field
              (field_name sh.field_prefix i)
          × IsFor c
              (build_update_query sh.table_name sh.key (field_name sh.field_prefix i ∷ []))
              db.stmt_update_field
              (field_name sh.field_prefix i)

  -- When PrepareQueries ends without an exception, every statement of the instance is the one that
  -- SQLite prepared for its query: those of reads, scans and updates for all fields, the insert and
  -- the delete, and, under the name of each field, those of reads, scans and updates for this field.
  pub prepare_queries-IsPrepared :
      (sh : Shared) (c : lib.Conn) (db : SqliteDb lib)
      → prepare_queries lib sh c ≡ ok db
      → IsPrepared sh c db
  unfolding prepare_queries
  prepare_queries-IsPrepared sh c db e =
      let fields = field_names sh.field_prefix 0 sh.field_count in
      let read_query = build_read_query sh.table_name sh.key in
      let scan_query = build_scan_query sh.table_name sh.key in
      let update_query = build_update_query sh.table_name sh.key in
      ok_elim (checked_rc (lit "prepare: ") (lib.prepare c (read_query fields))) _ e λ r is_r e₁.
        ok_elim (prepare_each lib c read_query fields) _ e₁ λ rs are_rs e₂.
          ok_elim (checked_rc (lit "prepare: ") (lib.prepare c (scan_query fields))) _ e₂
            λ s is_s e₃. ok_elim (prepare_each lib c scan_query fields) _ e₃ λ ss are_ss e₄.
              ok_elim (checked_rc (lit "prepare: ") (lib.prepare c (update_query fields))) _ e₄
                λ u is_u e₅. ok_elim (prepare_each lib c update_query fields) _ e₅ λ us are_us e₆.
                  ok_elim
                    (checked_rc (lit "prepare: ")
                      (lib.prepare c (build_insert_query sh.table_name sh.key fields)))
                    _ e₆
                    λ i is_i e₇.
                      ok_elim
                        (checked_rc (lit "prepare: ")
                          (lib.prepare c (build_delete_query sh.table_name sh.key)))
                        _ e₇
                        λ d is_d e₈. subst (IsPrepared sh c) (ok_injective (λ x. x) e₈) (record {
                          read_all = prepared_ok _ r is_r;
                          scan_all = prepared_ok _ s is_s;
                          update_all = prepared_ok _ u is_u;
                          insert_all = prepared_ok _ i is_i;
                          delete_all = prepared_ok _ d is_d;
                          each_field = λ n below.
                              let here =
                                field_names-IsIn sh.field_prefix 0 sh.field_count n (omega arith)
                                  (omega arith) in
                              (
                                prepare_each-IsFor c read_query fields rs
                                    (field_name sh.field_prefix n) are_rs here,
                                prepare_each-IsFor c scan_query fields ss
                                    (field_name sh.field_prefix n) are_ss here,
                                prepare_each-IsFor c update_query fields us
                                    (field_name sh.field_prefix n) are_us here,
                              );
                        })
