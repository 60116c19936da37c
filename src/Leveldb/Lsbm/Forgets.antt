-- ===== src/Leveldb/Lsbm/Forgets.antt =====
-- What lsbm/lsbm_db.cc returns, next to leveldb/leveldb_db.cc.
use my_ycsb_cpp.Prelude.{
  ◌≡◌, refl, ap, ◌∙◌, List, [], ◌∷◌, Option, map, take, if◌then◌else◌, Bool-cases, inl, inr,
}
use my_ycsb_cpp.Prelude.Int.{ℤ, pos_part}
use my_ycsb_cpp.Prelude.Bytes.{Bytes}
use my_ycsb_cpp.Prelude.Outcome.{done, done_elim, done_injective}
use my_ycsb_cpp.Db.{Field, Status, k_ok}
use my_ycsb_cpp.Leveldb.Store.{Kv, KvStatus, fine, missing, failed}
use my_ycsb_cpp.Leveldb.Single
use my_ycsb_cpp.Leveldb.Single.{deserialize, scan_rows}
use my_ycsb_cpp.Leveldb.Lsbm
use my_ycsb_cpp.Leveldb.Lsbm.{read_got, no_row, is_all_fields, update_all_fields_single}

-- A row without its fields.
abbrev pub emptied : List Field → List Field
emptied row = []

read_got-forgets :
    (got : KvStatus × Bytes) (fields : Option (List Bytes)) (status : Status) (row : List Field)
    → Single.read_got got fields ≡ done (status, row)
    → read_got got ≡ done (status, [])
unfolding Single.read_got read_got
read_got-forgets (fine, data_) fields status row e =
    done_elim (deserialize data_ fields) _ e
      λ values p q. ap (λ s. done (s, [])) (ap (λ r. r.0) (done_injective q))
read_got-forgets (missing text, data_) fields status row e =
    ap (λ s. done (s, [])) (ap (λ r. r.0) (done_injective e))
read_got-forgets (failed text, data_) fields status row e = cc

scan_rows-forgets :
    (entries : List (Bytes × Bytes)) (fields : Option (List Bytes)) (rows : List (List Field))
    → scan_rows entries fields ≡ done rows
    → map no_row entries ≡ map emptied rows
unfolding scan_rows
scan_rows-forgets [] fields rows e = ap (map emptied) (done_injective e)
scan_rows-forgets ((key, data_) ∷ entries) fields rows e =
    done_elim (deserialize data_ fields) _ e λ values p q.
      done_elim (scan_rows entries fields) _ q λ rest p' q'.
        ap (◌∷◌ []) (scan_rows-forgets entries fields rest p')
        ∙ ap (map emptied) (done_injective q')

-- Where a read or a scan of the LevelDB binding returns, that of the LSbM binding returns the same
-- status, and no field of any row, with as many rows; and an update is that of the LevelDB binding
-- where it has another number of fields than configured, and else the insert of its fields.
pub lsbm-forgets :
    (kv : Kv) (fieldcount : ℤ) (s : kv.State) (key : Bytes) (len : ℤ) (fields : Option (List Bytes))
    (status : Status) (row : List Field) (rows : List (List Field)) (values : List Field)
    → Single.read_single_entry kv s key fields ≡ done (status, row)
    → Single.scan_single_entry kv s key len fields ≡ done (k_ok, rows)
    → (Lsbm.read_single_entry kv fieldcount s key fields ≡ done (status, []))
      × (Lsbm.scan_single_entry kv fieldcount s key len fields ≡ done (k_ok, map emptied rows))
      × (Lsbm.update_single_entry kv fieldcount s key values ≡ (
          if is_all_fields kv fieldcount values
          then Single.insert_single_entry kv s key values
          else Single.update_single_entry kv s key values))
unfolding Single.read_single_entry Single.scan_single_entry Single.update_single_entry
    Single.insert_single_entry Lsbm.read_single_entry Lsbm.scan_single_entry
    Lsbm.update_single_entry update_all_fields_single
lsbm-forgets kv fieldcount s key len fields status row rows values read scanned = (
  read_got-forgets (kv.get s key) fields status row read,
  ap (λ rs. done (k_ok, rs))
      (done_elim (scan_rows (take (pos_part len) (kv.seek s key)) fields) _ scanned λ rs p q.
        scan_rows-forgets (take (pos_part len) (kv.seek s key)) fields rs p
        ∙ ap (map emptied) (ap (λ r. r.1) (done_injective q))),
  elim (Bool-cases (is_all_fields kv fieldcount values)) [
    | inl all_ ↦ rw all_ refl
    | inr fewer ↦ rw fewer refl
  ],
)
