-- ===== src/Rocksdb/Topling.antt =====
-- ScanSingle of toplingdb/toplingdb_db.cc, which terarkdb/terarkdb_db.cc repeats. The other operations
-- of both are those of rocksdb_lorc/rocksdb_db.cc.
use my_ycsb_cpp.Prelude.{◌≡◌, refl, ap, ◌∙◌, Bool, true, false, List, [], ◌∷◌, Option, take}
use my_ycsb_cpp.Prelude.Int.{ℤ, pos_part}
use my_ycsb_cpp.Prelude.Bytes.{Bytes}
use my_ycsb_cpp.Prelude.Outcome.{Outcome, done, ◌>>=◌}
use my_ycsb_cpp.Db.{Field, Status, k_ok}
use my_ycsb_cpp.Leveldb.Store.{Kv}
use my_ycsb_cpp.Leveldb.Single.{deserialize, scan_rows}
use my_ycsb_cpp.Rocksdb.Lorc.{LorcDb}
use my_ycsb_cpp.Rocksdb.Single

-- A row, which is left empty unless reads deserialize.
abbrev pub scanned_row : Bool → Bytes → Option (List Bytes) → Outcome (List Field)
scanned_row false data_ fields = done []
scanned_row true data_ fields = deserialize data_ fields

-- The loop over the entries that the iterator meets.
unfoldable pub scan_loop :
    Bool → List (Bytes × Bytes) → Option (List Bytes) → Outcome (List (List Field))
unfolding deserialize
scan_loop on_read [] fields = done []
scan_loop on_read ((key, data_) ∷ entries) fields = do
  values ← scanned_row on_read data_ fields
  rest ← scan_loop on_read entries fields
  done (values ∷ rest)

module _ (kv : Kv) (db : LorcDb) where
  unfoldable pub scan_single :
      kv.State → Bytes → ℤ → Option (List Bytes) → Outcome (Status × List (List Field))
  unfolding scan_loop
  scan_single s key len fields = do
    rows ← scan_loop db.deserialize_on_read (take (pos_part len) (kv.seek s key)) fields
    done (k_ok, rows)

scan_loop_on :
    (entries : List (Bytes × Bytes)) (fields : Option (List Bytes))
    → scan_loop true entries fields ≡ scan_rows entries fields
unfolding scan_loop scan_rows
scan_loop_on [] fields = refl
scan_loop_on ((key, data_) ∷ entries) fields =
    ap (λ m. deserialize data_ fields >>= λ values. m >>= λ rest. done (values ∷ rest))
      (scan_loop_on entries fields)

-- With deserialize_on_read set, the scan is that of rocksdb/rocksdb_db.cc.
topling-scan :
    (kv : Kv) (db : LorcDb) (s : kv.State) (key : Bytes) (len : ℤ) (fields : Option (List Bytes))
    → db.deserialize_on_read ≡ true
    → scan_single kv db s key len fields ≡ Single.scan_single kv s key len fields
unfolding scan_single Single.scan_single
topling-scan kv db s key len fields on =
    let entries = take (pos_part len) (kv.seek s key) in
    ap (λ m. m >>= λ rows. done (k_ok, rows))
      (ap (λ b. scan_loop b entries fields) on ∙ scan_loop_on entries fields)
