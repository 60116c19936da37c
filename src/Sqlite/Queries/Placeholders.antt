-- ===== src/Sqlite/Queries/Placeholders.antt =====
-- The parameters of the queries: a `?` for each value that an operation binds.
use my_ycsb_cpp.Prelude.{
  ℕ, suc, ◌+◌, ◌≡◌, ◌≢◌, refl, List, [], ◌∷◌, ◌++◌, ◌==◌, All, length, arith, if◌then◌else◌,
}
use my_ycsb_cpp.Prelude.Bytes.{Bytes, lit}
use my_ycsb_cpp.Sqlite.Queries.{
  each_behind, each_between, values_behind, build_create_table_query, build_read_query,
  build_insert_query, build_delete_query, build_update_query, build_scan_query,
}

unfoldable pub placeholders : Bytes → ℕ
placeholders [] = 0
placeholders (c ∷ query) = if c == b'?' then suc (placeholders query) else placeholders query

-- A name without a `?`.
abbrev pub IsName : Bytes → Type 0
IsName = All (λ c. c ≢ b'?')

placeholders-append : (xs ys : Bytes) → placeholders (xs ++ ys) ≡ placeholders xs + placeholders ys
unfolding placeholders
placeholders-append [] ys = omega arith
placeholders-append (x ∷ xs) ys = ground (arith, placeholders-append xs ys)

placeholders-name : (name : Bytes) → IsName name → placeholders name ≡ 0
unfolding placeholders
placeholders-name [] h = refl
placeholders-name (c ∷ name) h = ground (arith, placeholders-name name h.1)

each_behind-none :
    (fields : List Bytes) (after : Bytes)
    → placeholders after ≡ 0
    → All IsName fields
    → placeholders (each_behind fields after) ≡ 0
unfolding each_behind
each_behind-none [] after e h = unfold placeholders in refl
each_behind-none (field ∷ fields) after e h =
    simp (placeholders-append, placeholders-name field h.0, e, each_behind-none fields after e h.1)
      (unfold placeholders in refl)

each_behind-one :
    (fields : List Bytes) (after : Bytes)
    → placeholders after ≡ 1
    → All IsName fields
    → placeholders (each_behind fields after) ≡ length fields
unfolding each_behind
each_behind-one [] after e h = unfold placeholders in refl
each_behind-one (field ∷ fields) after e h =
    simp (placeholders-append, placeholders-name field h.0, e, each_behind-one fields after e h.1)
      (unfold placeholders in omega arith)

each_between-none :
    (fields : List Bytes) → All IsName fields → placeholders (each_between fields []) ≡ 0
unfolding each_between
each_between-none [] h = unfold placeholders in refl
each_between-none (field ∷ fields) h =
    let nothing : placeholders [] ≡ 0 = unfold placeholders in refl in
    simp (placeholders-append, placeholders-name field h.0, each_behind-none fields [] nothing h.1)
      (unfold placeholders in refl)

each_between-one :
    (fields : List Bytes)
    → All IsName fields
    → placeholders (each_between fields (lit " = ?")) ≡ length fields
unfolding each_between
each_between-one [] h = unfold placeholders in refl
each_between-one (field ∷ fields) h =
    let one : placeholders (lit " = ?") ≡ 1 = unfold placeholders in refl in
    simp
      (
        placeholders-append,
        placeholders-name field h.0,
        each_behind-one fields (lit " = ?") one h.1,
      )
      (unfold placeholders in omega arith)

values_behind-each : (fields : List Bytes) → placeholders (values_behind fields) ≡ length fields
unfolding values_behind
values_behind-each [] = unfold placeholders in refl
values_behind-each (field ∷ fields) =
    simp (placeholders-append, values_behind-each fields) (unfold placeholders in omega arith)

-- Each query has as many parameters as its operation binds, whatever the fields, if no name holds a
-- `?`: a read and a delete the key, a scan the key and the length, an insert and an update the key
-- and a value for each field, and the creation of the table none.
pub query_placeholders :
    (table key : Bytes) (fields : List Bytes)
    → IsName table
    → IsName key
    → All IsName fields
    → (placeholders (build_read_query table key fields) ≡ 1)
      × (placeholders (build_delete_query table key) ≡ 1)
      × (placeholders (build_scan_query table key fields) ≡ 2)
      × (placeholders (build_insert_query table key fields) ≡ length fields + 1)
      × (placeholders (build_update_query table key fields) ≡ length fields + 1)
      × (placeholders (build_create_table_query table key fields) ≡ 0)
unfolding build_create_table_query build_read_query build_insert_query build_delete_query
    build_update_query build_scan_query
query_placeholders table key fields ht hk hf =
    let et = placeholders-name table ht in
    let ek = placeholders-name key hk in
    let nothing : placeholders [] ≡ 0 = unfold placeholders in refl in
    let text : placeholders (lit " TEXT") ≡ 0 = unfold placeholders in refl in
    (
      simp (placeholders-append, et, ek, each_between-none fields hf) (unfold placeholders in refl),
      simp (placeholders-append, et, ek) (unfold placeholders in refl),
      simp (placeholders-append, et, ek, each_behind-none fields [] nothing hf)
          (unfold placeholders in refl),
      simp
          (
            placeholders-append,
            et,
            ek,
            each_behind-none fields [] nothing hf,
            values_behind-each fields,
          )
          (unfold placeholders in omega arith),
      simp (placeholders-append, et, ek, each_between-one fields hf)
          (unfold placeholders in omega arith),
      simp (placeholders-append, et, ek, each_behind-none fields (lit " TEXT") text hf)
          (unfold placeholders in refl),
    )
