-- ===== src/Leveldb/Row/Kept.antt =====
-- The bytes that stand for a record of the table, in the form of a row.
use my_ycsb_cpp.Prelude.{◌≡◌, List, Option, none, some, All}
use my_ycsb_cpp.Prelude.Bytes.{Bytes}
use my_ycsb_cpp.Db.{Field}
use my_ycsb_cpp.Db.Table.{Record, value_of}
use my_ycsb_cpp.Leveldb.Row.{serialize_row}
use my_ycsb_cpp.Leveldb.Row.RoundTrip.{FitsWord}

-- What is stored for a record, or for none.
abbrev pub Kept : Option Bytes → Option Record → Type 0
Kept data_ none = data_ ≡ none
Kept data_ (some r) =
    (row : List Field) × (data_ ≡ some (serialize_row row))
    × All FitsWord row
    × ((name : Bytes) → value_of row name ≡ r name)
