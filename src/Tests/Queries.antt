-- ===== src/Tests/Queries.antt =====
-- The queries and the statements of SQLite at concrete inputs.
use my_ycsb_cpp.Prelude.{◌≤◌, ◌≡◌, refl, List, [], ◌∷◌, All, length, none, arith}
use my_ycsb_cpp.Prelude.Int.{pos}
use my_ycsb_cpp.Prelude.Bytes.{Bytes, lit}
use my_ycsb_cpp.Prelude.Result.{ok}
use my_ycsb_cpp.Prelude.Outcome.{done}
use my_ycsb_cpp.Db.{Field, k_ok}
use my_ycsb_cpp.Sqlite.Queries.{
  build_read_query, build_delete_query, build_scan_query, build_insert_query, build_update_query,
  build_create_table_query,
}
use my_ycsb_cpp.Sqlite.Queries.Placeholders.{placeholders, query_placeholders}
use my_ycsb_cpp.Sqlite.Statements
use my_ycsb_cpp.Sqlite.Statements.{SqliteDb}
use my_ycsb_cpp.Workload.Keys.{field_name}
use my_ycsb_cpp.Sqlite.Instance.{Shared, prepare_each, prepare_queries, field_names}
use my_ycsb_cpp.Sqlite.Instance.Prepared.{IsPrepared, prepare_queries-IsPrepared}
use my_ycsb_cpp.Tests.Libraries.{one_row}

query_placeholders_example :
    (placeholders (build_read_query (lit "usertable") (lit "user_id") (lit "f0" ∷ [])) ≡ 1)
    × (placeholders (build_delete_query (lit "usertable") (lit "user_id")) ≡ 1)
    × (placeholders (build_scan_query (lit "usertable") (lit "user_id") (lit "f0" ∷ [])) ≡ 2)
    × (placeholders (build_insert_query (lit "usertable") (lit "user_id") (lit "f0" ∷ [])) ≡ 2)
    × (placeholders (build_update_query (lit "usertable") (lit "user_id") (lit "f0" ∷ [])) ≡ 2)
    × (placeholders (build_create_table_query (lit "usertable") (lit "user_id") (lit "f0" ∷ []))
        ≡ 0)
query_placeholders_example =
    query_placeholders (lit "usertable") (lit "user_id") (lit "f0" ∷ []) (ground arith)
      (ground arith) (ground arith)

abbrev columns_db : SqliteDb one_row
columns_db = record {
  table_name = lit "usertable";
  key = lit "user_id";
  field_count = 2;
  stmt_read_all = lit "read";
  stmt_read_field = (lit "field0", lit "read0") ∷ [];
  stmt_scan_all = lit "scan";
  stmt_scan_field = (lit "field0", lit "scan0") ∷ [];
  stmt_update_all = lit "update";
  stmt_update_field = [];
  stmt_insert = lit "insert";
  stmt_delete = lit "delete";
}

abbrev a_field : Field
a_field = record { name = lit "field"; value = lit "value" }

one_row_scanned :
    Statements.scan one_row columns_db 0 (lit "k") (pos 3) none
    ≡ done ((k_ok, (a_field ∷ a_field ∷ []) ∷ []), 1)
unfolding Statements.scan Statements.scan_bound Statements.scan_loop Statements.columns
one_row_scanned = refl

scan-Within_example :
    ((1 ≤ 3) × All (λ row. length row ≡ 2) ((a_field ∷ a_field ∷ []) ∷ [])) × (k_ok ≡ k_ok)
scan-Within_example =
    Statements.Bounds.scan-Within one_row columns_db 0 (lit "k") (pos 3) none
      ((k_ok, (a_field ∷ a_field ∷ []) ∷ []), 1) one_row_scanned

abbrev one_column : Shared
one_column = record {
  table_name = lit "t";
  key = lit "k";
  field_prefix = lit "field";
  field_count = 1;
}

abbrev field0 : List Bytes
field0 = lit "field0" ∷ []

abbrev prepared_db : SqliteDb one_row
prepared_db = record {
  table_name = lit "t";
  key = lit "k";
  field_count = 1;
  stmt_read_all = build_read_query (lit "t") (lit "k") field0;
  stmt_read_field = (lit "field0", build_read_query (lit "t") (lit "k") field0) ∷ [];
  stmt_scan_all = build_scan_query (lit "t") (lit "k") field0;
  stmt_scan_field = (lit "field0", build_scan_query (lit "t") (lit "k") field0) ∷ [];
  stmt_update_all = build_update_query (lit "t") (lit "k") field0;
  stmt_update_field = (lit "field0", build_update_query (lit "t") (lit "k") field0) ∷ [];
  stmt_insert = build_insert_query (lit "t") (lit "k") field0;
  stmt_delete = build_delete_query (lit "t") (lit "k");
}

is_prepared : prepare_queries one_row one_column 0 ≡ ok prepared_db
unfolding prepare_queries prepare_each field_names field_name
is_prepared = refl

prepare_queries-IsPrepared_example : IsPrepared one_row one_column 0 prepared_db
prepare_queries-IsPrepared_example =
    prepare_queries-IsPrepared one_row one_column 0 prepared_db is_prepared
