-- ===== src/Rocksdb/Merge.antt =====
-- YCSBUpdateMerge of rocksdb/rocksdb_db.cc, and MergeSingle, which leaves an update to it.
pub mod Laws
use my_ycsb_cpp.Prelude.{◌≡◌, Bool, List, [], ◌∷◌, ◌++◌, Option, none, some, if◌then◌else◌}
use my_ycsb_cpp.Prelude.Bytes.{Bytes, lit, bytes_eq}
use my_ycsb_cpp.Prelude.Outcome.{Outcome, done, thrown, undefined, stuck, ◌>>=◌}
use my_ycsb_cpp.Db.{Field, Status}
use my_ycsb_cpp.Leveldb.Store.{Kv, KvStatus, fine}
use my_ycsb_cpp.Leveldb.Row.{deserialize_row, serialize_row}
use my_ycsb_cpp.Leveldb.Single.{or_fail}

-- The inner loop: the first field with the new field's name gets its value, and a field whose name
-- is new is appended.
unfoldable pub merge_field : List Field → Field → List Field
unfolding bytes_eq
merge_field [] new_field = new_field ∷ []
merge_field (field ∷ values) new_field =
    if bytes_eq field.name new_field.name
    then record field { value = new_field.value } ∷ values
    else field ∷ merge_field values new_field

unfoldable pub merge_fields : List Field → List Field → List Field
unfolding merge_field
merge_fields values [] = values
merge_fields values (new_field ∷ new_values) =
    merge_fields (merge_field values new_field) new_values

-- YCSBUpdateMerge::Merge. A null pointer to the value that is there is read all the same.
unfoldable pub merge : Option Bytes → Bytes → Outcome Bytes
unfolding deserialize_row merge_fields serialize_row
merge none value = undefined
merge (some existing_value) value = do
  values ← deserialize_row existing_value
  new_values ← deserialize_row value
  done (serialize_row (merge_fields values new_values))

-- RocksDB's Merge, over the store, and what its documentation says of it: a Get after it returns
-- what the operator makes of the value before it, and the other keys are as they were.
pub record Merging (kv : Kv) : Type 0 where
  pub merge_into : kv.State → Bytes → Bytes → KvStatus × kv.State
  pub get_merge :
      (s : kv.State) (key value existing_value new_value : Bytes)
      → (merge_into s key value).0 ≡ fine
      → kv.get s key ≡ (fine, existing_value)
      → merge (some existing_value) value ≡ done new_value
      → kv.get (merge_into s key value).1 key ≡ (fine, new_value)

unfoldable pub merge_single :
    (kv : Kv) → Merging kv → kv.State → Bytes → List Field → Outcome (Status × kv.State)
unfolding serialize_row
merge_single kv mg s key values =
    let r = mg.merge_into s key (serialize_row values) in or_fail kv (lit "RocksDB Merge: ") r.0 r.1
