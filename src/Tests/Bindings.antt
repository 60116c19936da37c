-- ===== src/Tests/Bindings.antt =====
-- The bindings at concrete inputs.
use my_ycsb_cpp.Prelude.{◌≡◌, refl, [], ◌∷◌, ◌++◌, Option, none, some}
use my_ycsb_cpp.Prelude.Int.{pos}
use my_ycsb_cpp.Prelude.Bytes.{Bytes, lit, bytes_eq_refl}
use my_ycsb_cpp.Prelude.Result.{exception}
use my_ycsb_cpp.Prelude.Outcome.{after_done, Outcome, done, thrown, SameDone}
use my_ycsb_cpp.Db.{k_ok, k_not_found}
use my_ycsb_cpp.Db.Table.{update}
use my_ycsb_cpp.Leveldb.Store.{Kv, KvStatus, fine, failed}
use my_ycsb_cpp.Leveldb.Row.{serialize_row}
use my_ycsb_cpp.Leveldb.Row.RoundTrip.{deserialize_row-serialize_row}
use my_ycsb_cpp.Leveldb.Lsbm
use my_ycsb_cpp.Leveldb.Single
use my_ycsb_cpp.Leveldb.Single.Laws.{deserialize-serialize_row}
use my_ycsb_cpp.Leveldb.Single.{deserialize}
use my_ycsb_cpp.Rocksdb.Single.{
  read_single, scan_single, insert_single, update_single, delete_single,
}
use my_ycsb_cpp.Rocksdb.Single.Refines.{single-SameDone}
use my_ycsb_cpp.Rocksdb.Merge.{Merging, merge}
use my_ycsb_cpp.Rocksdb.Lorc
use my_ycsb_cpp.Rocksdb.Lorc.{RangeScan}
use my_ycsb_cpp.Lmdb.Transactions
use my_ycsb_cpp.Wiredtiger.Cursor.{scan_single_entry}
use my_ycsb_cpp.Wiredtiger.Cursor.Scans.{scan_repeats}
use my_ycsb_cpp.Tests.Toys.{store, lookup}
use my_ycsb_cpp.Tests.Records.{two_fields, two_fields-fit}
use my_ycsb_cpp.Tests.Libraries.{
  Content, changed, pages, pages_laws, pages-Accepts, Session, session,
}
use my_ycsb_cpp.Tests.Tables.{empty}

abbrev k_filled : Content
k_filled key = some (serialize_row two_fields)

single-SameDone_example :
    SameDone
      (Single.read_single_entry store k_filled (lit "k") none)
      (read_single store k_filled (lit "k") none)
    × SameDone
        (Single.scan_single_entry store k_filled (lit "k") (pos 2) none)
        (scan_single store k_filled (lit "k") (pos 2) none)
    × SameDone
        (Single.insert_single_entry store k_filled (lit "k") two_fields)
        (insert_single store k_filled (lit "k") two_fields)
    × SameDone
        (Single.update_single_entry store k_filled (lit "k") two_fields)
        (update_single store k_filled (lit "k") two_fields)
    × SameDone
        (Single.delete_single_entry store k_filled (lit "k"))
        (delete_single store k_filled (lit "k"))
single-SameDone_example = single-SameDone store k_filled (lit "k") two_fields (pos 2) none

missing_key_throws_example :
    (Transactions.read pages empty (lit "k") none ≡ done (k_not_found, []))
    × (Transactions.update pages empty (lit "k") two_fields
        ≡ thrown (exception (lit "Update mdb_get: " ++ lit "MDB_NOTFOUND")))
    × (Transactions.delete pages empty (lit "k")
        ≡ thrown (exception (lit "Delete mdb_del: " ++ lit "MDB_NOTFOUND")))
missing_key_throws_example =
    Transactions.Calls.missing_key_throws pages pages_laws pages-Accepts empty (lit "k") two_fields
      none refl

abbrev placed : Session
placed = record {
  content = changed empty (lit "k") (some (serialize_row two_fields));
  key = lit "k";
  value = serialize_row two_fields;
}

scan_repeats_example :
    scan_single_entry (lit "wiredtiger_db.cc") session placed (lit "k") (pos 3) none
    ≡ done ((k_ok, two_fields ∷ two_fields ∷ two_fields ∷ []), placed)
unfolding deserialize
scan_repeats_example =
    scan_repeats (lit "wiredtiger_db.cc") session placed placed placed (lit "k") (pos 3) (pos 0)
      (serialize_row two_fields) two_fields none refl refl refl
      (deserialize_row-serialize_row two_fields two_fields-fit)

abbrev after_merge : Outcome Bytes → Content → Bytes → KvStatus × Content
after_merge (done value) s key = (fine, changed s key (some value))
after_merge _ s key = (failed (lit "Corruption"), s)

lookup-some : (o : Option Bytes) (value : Bytes) → lookup o ≡ (fine, value) → o ≡ some value
lookup-some none value e = cc
lookup-some (some v) value e = cc

abbrev merging : Merging store
merging = record {
  merge_into = λ s key value. after_merge (merge (s key) value) s key;
  get_merge = λ s key value existing_value new_value accepted there result.
      rw (lookup-some (s key) existing_value there, result, bytes_eq_refl key) refl;
}

-- The store, with one entry for its iterator.
abbrev seeking : Kv
seeking = record store { seek = λ s key. (lit "k", serialize_row two_fields) ∷ [] }

two_fields_read : Single.read_single_entry seeking k_filled (lit "k") none ≡ done (k_ok, two_fields)
unfolding Single.read_single_entry
two_fields_read = after_done _ (deserialize-serialize_row two_fields none two_fields-fit)

two_fields_scanned :
    Single.scan_single_entry seeking k_filled (lit "k") (pos 5) none ≡ done (k_ok, two_fields ∷ [])
unfolding Single.scan_single_entry
two_fields_scanned =
    after_done _ (after_done _ (deserialize-serialize_row two_fields none two_fields-fit))

lsbm-forgets_example :
    (Lsbm.read_single_entry seeking (pos 2) k_filled (lit "k") none ≡ done (k_ok, []))
    × (Lsbm.scan_single_entry seeking (pos 2) k_filled (lit "k") (pos 5) none
        ≡ done (k_ok, [] ∷ []))
    × (Lsbm.update_single_entry seeking (pos 2) k_filled (lit "k") two_fields
        ≡ Single.insert_single_entry seeking k_filled (lit "k") two_fields)
lsbm-forgets_example =
    Lsbm.Forgets.lsbm-forgets seeking (pos 2) k_filled (lit "k") (pos 5) none k_ok two_fields
      (two_fields ∷ []) two_fields two_fields_read two_fields_scanned
