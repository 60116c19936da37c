-- ===== src/Leveldb/Single/Laws.antt =====
-- A record that was written, updated or deleted, and then read.
use my_ycsb_cpp.Prelude.{◌≡◌, refl, ap, ◌∙◌, List, [], Option, none, some, All}
use my_ycsb_cpp.Prelude.Bytes.{Bytes}
use my_ycsb_cpp.Prelude.Outcome.{done, after_done}
use my_ycsb_cpp.Db.{Field, k_ok, k_not_found}
use my_ycsb_cpp.Db.Table.{value_of, written}
use my_ycsb_cpp.Leveldb.Single.Overwrite.{value_of-overwrite_all, overwrite_all-fits}
use my_ycsb_cpp.Leveldb.Store.{Kv, KvLaws, KvStatus, fine, missing, failed}
use my_ycsb_cpp.Leveldb.Row.{serialize_row}
use my_ycsb_cpp.Leveldb.Row.RoundTrip.{
  FitsWord, select, deserialize_row-serialize_row, deserialize_row_filter-serialize_row,
}
use my_ycsb_cpp.Leveldb.Single.{
  read_got, update_got, deserialize, overwrite_all, read_single_entry, update_single_entry,
  delete_single_entry,
}

-- The fields of a row that a read asks for.
abbrev pub chosen : List Field → Option (List Bytes) → List Field
chosen values none = values
chosen values (some names) = select values names

pub deserialize-serialize_row :
    (values : List Field) (fields : Option (List Bytes))
    → All FitsWord values
    → deserialize (serialize_row values) fields ≡ done (chosen values fields)
unfolding deserialize
deserialize-serialize_row values none fit = deserialize_row-serialize_row values fit
deserialize-serialize_row values (some names) fit =
    deserialize_row_filter-serialize_row values names fit

pub read_got-missing :
    {text : Bytes} (got : KvStatus × Bytes) (fields : Option (List Bytes))
    → got.0 ≡ missing text
    → read_got got fields ≡ done (k_not_found, [])
unfolding read_got
read_got-missing (fine, data_) fields e = cc
read_got-missing (missing text, data_) fields e = refl
read_got-missing (failed text, data_) fields e = cc

pub update_got-missing :
    {text : Bytes} (kv : Kv) (s : kv.State) (key : Bytes) (values : List Field)
    (got : KvStatus × Bytes)
    → got.0 ≡ missing text
    → update_got kv s key values got ≡ done (k_not_found, s)
unfolding update_got
update_got-missing kv s key values (fine, data_) e = cc
update_got-missing kv s key values (missing text, data_) e = refl
update_got-missing kv s key values (failed text, data_) e = cc

module _ (kv : Kv) (laws : KvLaws kv) where
  pub read_of_row :
      (s : kv.State) (key : Bytes) (values : List Field) (fields : Option (List Bytes))
      → kv.get s key ≡ (fine, serialize_row values)
      → All FitsWord values
      → read_single_entry kv s key fields ≡ done (k_ok, chosen values fields)
  unfolding read_single_entry
  read_of_row s key values fields is_row fit =
      ap (λ got. read_got got fields) is_row
      ∙ after_done _ (deserialize-serialize_row values fields fit)

  -- An update of a record that is stored as a row returns kOK, if LevelDB accepts the Put, and
  -- leaves a record in which each field has the last value that the update holds for its name, or
  -- the value it had, and no name is new. An update of a missing record returns kNotFound and
  -- writes nothing.
  pub read-update_single_entry :
      (s : kv.State) (key : Bytes) (current_values values : List Field)
      → kv.get s key ≡ (fine, serialize_row current_values)
      → All FitsWord current_values
      → All FitsWord values
      → (kv.put s key (serialize_row (overwrite_all current_values values))).0 ≡ fine
      → (s' : kv.State) × (row : List Field) × (update_single_entry kv s key values
          ≡ done (k_ok, s'))
        × (read_single_entry kv s' key none ≡ done (k_ok, row))
        × ((name : Bytes) → value_of row name ≡ written values name (value_of current_values name))
  unfolding update_single_entry
  read-update_single_entry s key cur values is_row cur_fit fit accepted =
      let row = overwrite_all cur values in
      let s' = (kv.put s key (serialize_row row)).1 in
      (
        s',
        row,
        ap (update_got kv s key values) is_row
            ∙ after_done _ (deserialize_row-serialize_row cur cur_fit)
            ∙ rw accepted refl,
        read_of_row s' key row none (laws.get_put s key (serialize_row row) accepted)
            (overwrite_all-fits cur values cur_fit fit),
        value_of-overwrite_all cur values,
      )

  -- After a delete that LevelDB accepts, a read of the key and an update of it return kNotFound,
  -- and the update writes nothing.
  pub read-delete_single_entry :
      (s : kv.State) (key : Bytes) (values : List Field) (fields : Option (List Bytes))
      → (kv.delete s key).0 ≡ fine
      → (s' : kv.State) × (delete_single_entry kv s key ≡ done (k_ok, s'))
        × (read_single_entry kv s' key fields ≡ done (k_not_found, []))
        × (update_single_entry kv s' key values ≡ done (k_not_found, s'))
  unfolding delete_single_entry read_single_entry update_single_entry
  read-delete_single_entry s key values fields accepted =
      let s' = (kv.delete s key).1 in
      let (text, gone) = laws.get_delete s key accepted in
      (
        s',
        rw accepted refl,
        read_got-missing (kv.get s' key) fields gone,
        update_got-missing kv s' key values (kv.get s' key) gone,
      )
