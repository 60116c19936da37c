-- ===== src/Rocksdb/Merge/Laws.antt =====
-- What the merge operator makes of a record.
use my_ycsb_cpp.Prelude.{List, [], ◌∷◌, Option, some, if◌then◌else◌}
use my_ycsb_cpp.Prelude.Bytes.{Bytes, bytes_eq}
use my_ycsb_cpp.Db.{Field}

-- What merges leave as the value of one field: the last value with its name, also if it is new.
abbrev pub merged : List Field → Bytes → Option Bytes → Option Bytes
merged [] name old = old
merged (field ∷ values) name old =
    merged values name (if bytes_eq field.name name then some field.value else old)
