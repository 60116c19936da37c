-- ===== src/Leveldb/Composite/Scans.antt =====
-- What the scans of the format `row` of leveldb/leveldb_db.cc make of the entries of records.
use my_ycsb_cpp.Prelude.{
  ℕ, zero, suc, ◌≡◌, refl, ap, subst, ◌∙◌, false, List, [], ◌∷◌, ◌++◌, none, some, All, take,
  length, arith,
}
use my_ycsb_cpp.Prelude.Int.{pos}
use my_ycsb_cpp.Prelude.Bytes.{Bytes, bytes_eq, bytes_eq_refl}
use my_ycsb_cpp.Db.{Field}
use my_ycsb_cpp.Leveldb.Composite.{all_loop, some_loop, read_record, scan_records}
use my_ycsb_cpp.Leveldb.Composite.Keys.{NoColon, comp_key}
use my_ycsb_cpp.Leveldb.Composite.Reads.{
  entries_of, entry_field-of, all_loop-entries, some_loop_step,
}

-- Records with their keys, and their entries in a row.
abbrev pub entries_of_all : List (Bytes × List Field) → List (Bytes × Bytes)
entries_of_all [] = []
entries_of_all ((key, values) ∷ records) = entries_of key values ++ entries_of_all records

abbrev pub rows : List (Bytes × List Field) → List (List Field)
rows [] = []
rows ((key, values) ∷ records) = values ∷ rows records

-- A scan of all fields returns the records from the place that Seek finds on, one row each, up to
-- the length asked for, if all have as many fields as configured and no key has a colon.
pub scan_records_lem :
    (fieldcount len : ℕ) (records : List (Bytes × List Field))
    → All (λ (r : Bytes × List Field). NoColon r.0 × (length r.1 ≡ suc fieldcount)) records
    → scan_records len (pos (suc fieldcount)) none (entries_of_all records)
      ≡ take len (rows records)
unfolding scan_records
scan_records_lem fieldcount zero records h = refl
scan_records_lem fieldcount (suc len) [] h = refl
scan_records_lem fieldcount (suc len) ((key, []) ∷ records) h = absurd (omega (arith, h.0.1))
scan_records_lem fieldcount (suc len) ((key, field ∷ values) ∷ records) h =
    let e : read_record (pos (suc fieldcount)) none
          (entries_of key (field ∷ values) ++ entries_of_all records)
        ≡ (field ∷ values, entries_of_all records) =
      unfold read_record in
      subst
        (λ n.
          all_loop n (entries_of key (field ∷ values) ++ entries_of_all records)
          ≡ (field ∷ values, entries_of_all records))
        h.0.1 (all_loop-entries key (field ∷ values) (entries_of_all records) h.0.0) in
    ap
      (λ (r : List Field × List (Bytes × Bytes)).
        r.0 ∷ scan_records len (pos (suc fieldcount)) none r.1)
      e
    ∙ ap (◌∷◌ (field ∷ values)) (scan_records_lem fieldcount len records h.1)

unnamed :
    (key name : Bytes) (rounds : ℕ) (values : List Field)
    → NoColon key
    → All (λ (f : Field). bytes_eq f.name name ≡ false) values
    → (some_loop rounds (name ∷ []) (entries_of key values)).0 ≡ []
unnamed key name zero values h others = unfold some_loop in refl
unnamed key name (suc rounds) [] h others = unfold some_loop in refl
unnamed key name (suc rounds) (field ∷ values) h others =
    rw
      (
        some_loop_step rounds name [] (comp_key key field.name, field.value) (entries_of key values)
            field (entry_field-of key field h),
        others.0,
      )
      (unnamed key name rounds values h others.1)

-- A scan through a filter leaves the iterator inside a record once the filter is used up: at the
-- last record, a scan for the first field alone returns its row and then an empty row that stands
-- for no record.
pub scan_records_past_end :
    (key : Bytes) (field next_field : Field) (values : List Field)
    → NoColon key
    → All (λ (f : Field). bytes_eq f.name field.name ≡ false) (next_field ∷ values)
    → scan_records 2
        (pos (length (field ∷ next_field ∷ values)))
        (some (field.name ∷ []))
        (entries_of key (field ∷ next_field ∷ values))
      ≡ (field ∷ []) ∷ [] ∷ []
scan_records_past_end key field next_field values h others =
    let left = entries_of key (next_field ∷ values) in
    let rounds = length (next_field ∷ values) in
    let first : read_record (pos (suc rounds)) (some (field.name ∷ []))
          ((comp_key key field.name, field.value) ∷ left)
        ≡ (field ∷ [], left) =
      unfold read_record in
      some_loop_step rounds field.name [] _ left field (entry_field-of key field h)
      ∙ rw (bytes_eq_refl field.name) (unfold some_loop in refl) in
    unfold scan_records in
    ap
      (λ (r : List Field × List (Bytes × Bytes)).
        r.0 ∷ scan_records 1 (pos (suc rounds)) (some (field.name ∷ [])) r.1)
      first
    ∙ ap (λ (r : List Field). (field ∷ []) ∷ r ∷ [])
        (unfold read_record in unnamed key field.name (suc rounds) (next_field ∷ values) h others)
