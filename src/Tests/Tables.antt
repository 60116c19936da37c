-- ===== src/Tests/Tables.antt =====
-- The bindings against the table of records, on one sequence of requests.
use my_ycsb_cpp.Prelude.{true, List, [], ◌∷◌, none}
use my_ycsb_cpp.Prelude.Int.{pos}
use my_ycsb_cpp.Prelude.Bytes.{lit}
use my_ycsb_cpp.Db.Table.{Request, insert, update, read_all}
use my_ycsb_cpp.Leveldb.Single
use my_ycsb_cpp.Rocksdb.Lorc
use my_ycsb_cpp.Rocksdb.Lorc.{LorcDb, is_all_fields}
use my_ycsb_cpp.Lmdb.Transactions
use my_ycsb_cpp.Wiredtiger.Cursor
use my_ycsb_cpp.Tests.Records.{two_fields, f1}
use my_ycsb_cpp.Tests.Libraries.{Content, Session}

abbrev pub empty : Content
empty key = none

-- Two fields, and an update of both, which is written without a read.
abbrev pub two_columns : LorcDb
two_columns = record { fieldcount = pos 2; deserialize_on_read = true }

abbrev updates : List Request
updates =
    insert (lit "k") two_fields
    ∷ update (lit "k") two_fields
    ∷ update (lit "k") (f1 ∷ [])
    ∷ read_all (lit "k")
    ∷ []

abbrev pub unplaced : Session
unplaced = record { content = empty; key = []; value = [] }
