-- ===== src/Leveldb/Single/Refines.antt =====
-- The format `single` of leveldb/leveldb_db.cc keeps to the table of records.
use my_ycsb_cpp.Prelude.{◌≡◌, refl, sym, ap, ◌∙◌, subst, List, [], ◌∷◌, Option, none, some, All}
use mathlib.Core.Path.{fun_ext}
use my_ycsb_cpp.Prelude.Bytes.{Bytes}
use my_ycsb_cpp.Prelude.Outcome.{done, after_done}
use my_ycsb_cpp.Db.{Field, Status, k_ok, k_not_found}
use my_ycsb_cpp.Db.Table.{
  Record, Table, Request, read_all, read_field, insert, update, delete, no_fields, value_of,
  written, only, answer, answer_read, answer_update, Operations, serve, Serves, view,
  answer_read-table, reading,
}
use my_ycsb_cpp.Leveldb.Store.{Kv, KvLaws}
use my_ycsb_cpp.Leveldb.Row.{serialize_row}
use my_ycsb_cpp.Leveldb.Row.RoundTrip.{FitsWord, deserialize_row-serialize_row}
use my_ycsb_cpp.Leveldb.Single.{
  update_got, overwrite_all, read_single_entry, insert_single_entry, update_single_entry,
  delete_single_entry,
}
use my_ycsb_cpp.Leveldb.Single.Overwrite.{value_of-overwrite_all, overwrite_all-fits}
use my_ycsb_cpp.Leveldb.Single.Laws.{chosen, read_of_row, read_got-missing, update_got-missing}
use my_ycsb_cpp.Leveldb.Single.Stored.{
  Stored, Represents, Accepts, FitsRow, chosen_one, store_put, store_delete,
}

abbrev pub operations : (kv : Kv) → Operations kv.State
operations kv = record {
  read = λ s key fields. reading s (read_single_entry kv s key fields);
  insert = insert_single_entry kv;
  update = update_single_entry kv;
  delete = delete_single_entry kv;
}

module _ (kv : Kv) (laws : KvLaws kv) where
  read_reply :
      (s : kv.State) (t : Table) (key : Bytes) (fields : Option (List Bytes)) (f : Record → Record)
      → ((row : List Field) (r : Record)
          → ((name : Bytes) → value_of row name ≡ r name)
          → value_of (chosen row fields) ≡ f r)
      → (o : Option Record) → Stored (kv.get s key) o
      → (reply : Status × List Field) × (read_single_entry kv s key fields ≡ done reply)
        × (view reply ≡ (answer_read t o f).0)
  read_reply s t key fields f agree none (text, gone) = (
    (k_not_found, []),
    unfold read_single_entry in read_got-missing (kv.get s key) fields gone,
    refl,
  )
  read_reply s t key fields f agree (some r) (row, is_row, fit, same) = (
    (k_ok, chosen row fields),
    read_of_row kv laws s key row fields is_row fit,
    ap (λ v. (k_ok, v)) (agree row r same),
  )

  update_reply :
      (s : kv.State) (t : Table) (key : Bytes) (values : List Field)
      → Accepts kv
      → Represents kv s t
      → All FitsWord values
      → (o : Option Record) → Stored (kv.get s key) o
      → (r : Status × kv.State) × (update_single_entry kv s key values ≡ done r)
        × ((r.0, no_fields) ≡ (answer_update t o key values).0)
        × Represents kv r.1 (answer_update t o key values).1
  unfolding update_single_entry
  update_reply s t key values accepts h fits none (text, gone) =
      ((k_not_found, s), update_got-missing kv s key values (kv.get s key) gone, refl, h)
  update_reply s t key values accepts h fits (some r) (row, is_row, fit, same) =
      let row' = overwrite_all row values in
      let accepted = accepts.puts s key (serialize_row row') in
      (
        (k_ok, (kv.put s key (serialize_row row')).1),
        ap (update_got kv s key values) is_row
            ∙ (unfold update_got in
                after_done _ (deserialize_row-serialize_row row fit) ∙ rw accepted refl),
        refl,
        store_put kv laws s t key row' (λ name. written values name (r name)) h accepted
            (overwrite_all-fits row values fit fits)
            (λ name. value_of-overwrite_all row values name ∙ ap (written values name) (same name)),
      )

  pub serve-answer :
      Accepts kv
      → (s : kv.State) (t : Table) (request : Request) → Represents kv s t
      → FitsRow request
      → Serves (operations kv) (Represents kv) s t request
  unfolding serve answer
  serve-answer accepts s t (read_all key) h fits =
      let (reply, e, same) =
        read_reply s t key none (λ r. r) (λ row r p. fun_ext p) (t key) (h key) in
      (
        reply,
        s,
        after_done _ e,
        same,
        subst (Represents kv s) (sym (answer_read-table t (t key) (λ r. r))) h,
      )
  serve-answer accepts s t (read_field key name) h fits =
      let (reply, e, same) =
        read_reply s t key (some (name ∷ [])) (only name) (λ row r p. chosen_one row r name p)
          (t key) (h key) in
      (
        reply,
        s,
        after_done _ e,
        same,
        subst (Represents kv s) (sym (answer_read-table t (t key) (only name))) h,
      )
  serve-answer accepts s t (insert key values) h fits =
      let accepted = accepts.puts s key (serialize_row values) in
      (
        (k_ok, []),
        (kv.put s key (serialize_row values)).1,
        unfold insert_single_entry in rw accepted refl,
        refl,
        store_put kv laws s t key values (value_of values) h accepted fits (λ name. refl),
      )
  serve-answer accepts s t (update key values) h fits =
      let (r, e, same, h') = update_reply s t key values accepts h fits (t key) (h key) in
      ((r.0, []), r.1, after_done _ e, same, h')
  serve-answer accepts s t (delete key) h fits =
      let accepted = accepts.deletes s key in
      (
        (k_ok, []),
        (kv.delete s key).1,
        unfold delete_single_entry in rw accepted refl,
        refl,
        store_delete kv laws s t key h accepted,
      )
