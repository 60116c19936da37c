-- ===== src/Sqlite/Queries.antt =====
-- The queries of sqlite/query_builder.h.
pub mod Placeholders
use my_ycsb_cpp.Prelude.{List, [], ◌∷◌, ◌++◌}
use my_ycsb_cpp.Prelude.Bytes.{Bytes, lit}

-- `for (i...) { stmt += ", "; stmt += fields[i] + after; }`
unfoldable pub each_behind : List Bytes → Bytes → Bytes
each_behind [] after = []
each_behind (field ∷ fields) after = lit ", " ++ (field ++ (after ++ each_behind fields after))

-- `for (i...) { if (i > 0) stmt += ", "; stmt += fields[i] + after; }`
unfoldable pub each_between : List Bytes → Bytes → Bytes
unfolding each_behind
each_between [] after = []
each_between (field ∷ fields) after = field ++ (after ++ each_behind fields after)

-- `for (i...) stmt += ", ?";`
unfoldable pub values_behind : List Bytes → Bytes
values_behind [] = []
values_behind (field ∷ fields) = lit ", ?" ++ values_behind fields

unfoldable pub build_create_table_query : Bytes → Bytes → List Bytes → Bytes
unfolding each_behind
build_create_table_query table key fields =
    lit "CREATE TABLE IF NOT EXISTS "
    ++ (table
        ++ (lit " ("
            ++ (key ++ (lit " TEXT PRIMARY KEY" ++ (each_behind fields (lit " TEXT") ++ lit ")")))))

unfoldable pub build_read_query : Bytes → Bytes → List Bytes → Bytes
unfolding each_between
build_read_query table key fields =
    lit "SELECT "
    ++ (each_between fields []
        ++ (lit " FROM " ++ (table ++ (lit " WHERE " ++ (key ++ lit " = ?")))))

unfoldable pub build_insert_query : Bytes → Bytes → List Bytes → Bytes
unfolding each_behind values_behind
build_insert_query table key fields =
    lit "INSERT OR REPLACE INTO "
    ++ (table
        ++ (lit " ("
            ++ (key
                ++ (each_behind fields []
                    ++ (lit ") VALUES (?" ++ (values_behind fields ++ lit ")"))))))

unfoldable pub build_delete_query : Bytes → Bytes → Bytes
build_delete_query table key =
    lit "DELETE FROM " ++ (table ++ (lit " WHERE " ++ (key ++ lit " = ?")))

unfoldable pub build_update_query : Bytes → Bytes → List Bytes → Bytes
unfolding each_between
build_update_query table key fields =
    lit "UPDATE "
    ++ (table
        ++ (lit " SET "
            ++ (each_between fields (lit " = ?") ++ (lit " WHERE " ++ (key ++ lit " = ?")))))

unfoldable pub build_scan_query : Bytes → Bytes → List Bytes → Bytes
unfolding each_behind
build_scan_query table key fields =
    lit "SELECT "
    ++ (key
        ++ (each_behind fields []
            ++ (lit " FROM "
                ++ (table
                    ++ (lit " WHERE "
                        ++ (key ++ (lit " >= ? ORDER BY " ++ (key ++ lit " LIMIT ?"))))))))
