-- ===== src/Tests/Records.antt =====
-- A record of two fields, and requests on it.
use my_ycsb_cpp.Prelude.{All, List, [], ◌∷◌, none, arith}
use my_ycsb_cpp.Prelude.Bytes.{lit}
use my_ycsb_cpp.Db.{Field}
use my_ycsb_cpp.Db.Table.{Request, read_all, read_field, insert, update, delete, Table}
use my_ycsb_cpp.Leveldb.Row.RoundTrip.{FitsWord}

abbrev pub f0 : Field
f0 = record { name = lit "f0"; value = lit "abc" }

abbrev pub f1 : Field
f1 = record { name = lit "f1"; value = [] }

abbrev pub two_fields : List Field
two_fields = f0 ∷ f1 ∷ []

pub two_fields-fit : All FitsWord two_fields
two_fields-fit = ((omega arith, omega arith), ((omega arith, omega arith), tt))

abbrev pub requests : List Request
requests =
    insert (lit "k") two_fields
    ∷ update (lit "k") (f1 ∷ [])
    ∷ read_field (lit "k") (lit "f0")
    ∷ delete (lit "k")
    ∷ read_all (lit "k")
    ∷ []

abbrev pub no_records : Table
no_records key = none

pub f1-fits : All FitsWord (f1 ∷ [])
f1-fits = ((omega arith, omega arith), tt)
