-- ===== src/Leveldb/Single.antt =====
-- The operations of the format `single` of leveldb/leveldb_db.cc, which keeps a record as one row
-- under its key.
pub mod Overwrite
pub mod Laws
pub mod Stored
pub mod Refines
use my_ycsb_cpp.Prelude.{ℕ, ◌≡◌, Bool, List, [], ◌∷◌, ◌++◌, Option, none, some, take, if◌then◌else◌}
use my_ycsb_cpp.Prelude.Int.{ℤ, pos_part}
use my_ycsb_cpp.Prelude.Bytes.{Bytes, lit, bytes_eq}
use my_ycsb_cpp.Prelude.Result.{exception}
use my_ycsb_cpp.Prelude.Outcome.{Outcome, done, thrown, undefined, stuck, ◌>>=◌}
use my_ycsb_cpp.Db.{Field, Status, k_ok, k_not_found}
use my_ycsb_cpp.Leveldb.Store.{Kv, KvStatus, fine, missing, failed}
use my_ycsb_cpp.Leveldb.Row.{deserialize_row, deserialize_row_filter, serialize_row}

-- The reader for a filter that may be null.
unfoldable pub deserialize : Bytes → Option (List Bytes) → Outcome (List Field)
unfolding deserialize_row deserialize_row_filter
deserialize data_ none = deserialize_row data_
deserialize data_ (some fields) = deserialize_row_filter data_ fields

-- The inner loop of UpdateSingleEntry: the first field with the new field's name gets its value.
unfoldable pub overwrite : List Field → Field → List Field
unfolding bytes_eq
overwrite [] new_field = []
overwrite (cur_field ∷ values) new_field =
    if bytes_eq cur_field.name new_field.name
    then record cur_field { value = new_field.value } ∷ values
    else cur_field ∷ overwrite values new_field

unfoldable pub overwrite_all : List Field → List Field → List Field
unfolding overwrite
overwrite_all current_values [] = current_values
overwrite_all current_values (new_field ∷ values) =
    overwrite_all (overwrite current_values new_field) values

-- The loop of ScanSingleEntry over the entries that it meets.
unfoldable pub scan_rows : List (Bytes × Bytes) → Option (List Bytes) → Outcome (List (List Field))
unfolding deserialize
scan_rows [] fields = done []
scan_rows ((key, data_) ∷ entries) fields = do
  values ← deserialize data_ fields
  rest ← scan_rows entries fields
  done (values ∷ rest)

-- ReadSingleEntry behind its Get.
unfoldable pub read_got : KvStatus × Bytes → Option (List Bytes) → Outcome (Status × List Field)
unfolding deserialize
read_got (missing text, data_) fields = done (k_not_found, [])
read_got (failed text, data_) fields = thrown (exception (lit "LevelDB Get: " ++ text))
read_got (fine, data_) fields = do values ← deserialize data_ fields; done (k_ok, values)

module _ (kv : Kv) where
  -- `if (!s.ok()) throw utils::Exception(what + s.ToString());`
  abbrev pub or_fail : Bytes → KvStatus → kv.State → Outcome (Status × kv.State)
  or_fail what fine s = done (k_ok, s)
  or_fail what (missing text) s = thrown (exception (what ++ text))
  or_fail what (failed text) s = thrown (exception (what ++ text))

  unfoldable pub read_single_entry :
      kv.State → Bytes → Option (List Bytes) → Outcome (Status × List Field)
  unfolding read_got
  read_single_entry s key fields = read_got (kv.get s key) fields

  unfoldable pub scan_single_entry :
      kv.State → Bytes → ℤ → Option (List Bytes) → Outcome (Status × List (List Field))
  unfolding scan_rows
  scan_single_entry s key len fields = do
    rows ← scan_rows (take (pos_part len) (kv.seek s key)) fields
    done (k_ok, rows)

  unfoldable pub insert_single_entry : kv.State → Bytes → List Field → Outcome (Status × kv.State)
  unfolding serialize_row
  insert_single_entry s key values =
      let put = kv.put s key (serialize_row values) in or_fail (lit "LevelDB Put: ") put.0 put.1

  -- UpdateSingleEntry behind its Get.
  unfoldable pub update_got :
      kv.State → Bytes → List Field → KvStatus × Bytes → Outcome (Status × kv.State)
  unfolding deserialize_row overwrite_all serialize_row
  update_got s key values (missing text, data_) = done (k_not_found, s)
  update_got s key values (failed text, data_) = thrown (exception (lit "LevelDB Get: " ++ text))
  update_got s key values (fine, data_) = do
    current_values ← deserialize_row data_
    let put = kv.put s key (serialize_row (overwrite_all current_values values))
    or_fail (lit "LevelDB Put: ") put.0 put.1

  unfoldable pub update_single_entry : kv.State → Bytes → List Field → Outcome (Status × kv.State)
  unfolding update_got
  update_single_entry s key values = update_got s key values (kv.get s key)

  unfoldable pub delete_single_entry : kv.State → Bytes → Outcome (Status × kv.State)
  delete_single_entry s key =
      let del = kv.delete s key in or_fail (lit "LevelDB Delete: ") del.0 del.1
