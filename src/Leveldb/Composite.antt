-- ===== src/Leveldb/Composite.antt =====
-- The operations of the formats `row` and `column` of leveldb/leveldb_db.cc, which keep each field
-- of a record under a key of its own.
pub mod Keys
pub mod Reads
pub mod Scans
use my_ycsb_cpp.Prelude.{
  ℕ, zero, suc, ◌+◌, ◌≡◌, Bool, true, false, not, List, [], ◌∷◌, ◌++◌, Option, none, some, take,
  drop, if◌then◌else◌,
}
use my_ycsb_cpp.Prelude.Int.{ℤ, pos_part}
use my_ycsb_cpp.Prelude.Bytes.{Bytes, lit, bytes_eq}
use my_ycsb_cpp.Prelude.Result.{exception}
use my_ycsb_cpp.Prelude.Outcome.{Outcome, done, thrown, undefined, stuck, ◌>>=◌}
use my_ycsb_cpp.Utils.Properties.{find_byte}
use my_ycsb_cpp.Db.{Field, Status, k_ok, k_not_found, k_not_implemented}
use my_ycsb_cpp.Workload.Keys.{field_name}
use my_ycsb_cpp.Leveldb.Store.{
  Kv, KvStatus, fine, missing, failed, BatchOp, batch_put, batch_delete,
}
use my_ycsb_cpp.Leveldb.Single.{or_fail}

pub data Format : Type 0 where
  single_entry row_major column_major : Format

unfoldable pub build_comp_key : Format → Bytes → Bytes → Outcome Bytes
build_comp_key row_major key field = done (key ++ b':' ∷ field)
build_comp_key column_major key field = done (field ++ b':' ∷ key)
build_comp_key single_entry key field = thrown (exception (lit "wrong format"))

-- `substr(0, find(":"))`; with asserts off, a key without a colon is taken whole.
unfoldable pub key_from_comp_key : Bytes → Bytes
unfolding find_byte
key_from_comp_key comp_key = elim (find_byte b':' comp_key) [
  | none ↦ comp_key
  | some idx ↦ take idx comp_key
]

-- `substr(find(":") + 1)`, where npos + 1 is 0.
unfoldable pub field_from_comp_key : Bytes → Bytes
unfolding find_byte
field_from_comp_key comp_key = elim (find_byte b':' comp_key) [
  | none ↦ comp_key
  | some idx ↦ drop (idx + 1) comp_key
]

abbrev pub entry_field : Bytes × Bytes → Field
entry_field (comp_key, value) = record { name = field_from_comp_key comp_key; value = value }

-- The loop over the fields of one record, with the rounds left and the entries that the iterator
-- has before it; it returns the fields and the entries left.
unfoldable pub all_loop : ℕ → List (Bytes × Bytes) → List Field × List (Bytes × Bytes)
all_loop zero entries = ([], entries)
all_loop (suc rounds) [] = ([], [])
all_loop (suc rounds) (entry ∷ entries) =
    let (values, rest) = all_loop rounds entries in (entry_field entry ∷ values, rest)

-- The loop with a filter, which ends when the filter is used up.
unfoldable pub some_loop : ℕ → List Bytes → List (Bytes × Bytes) → List Field × List (Bytes × Bytes)
unfolding bytes_eq
some_loop zero names entries = ([], entries)
some_loop (suc rounds) [] entries = ([], entries)
some_loop (suc rounds) (name ∷ names) [] = ([], [])
some_loop (suc rounds) (name ∷ names) (entry ∷ entries) =
    let (kept, rest) = some_loop rounds names entries in
    let skipped = some_loop rounds (name ∷ names) entries in
    if bytes_eq (entry_field entry).name name then (entry_field entry ∷ kept, rest) else skipped

-- The body that ReadCompKeyRM and ScanCompKeyRM share.
unfoldable pub read_record :
    ℤ → Option (List Bytes) → List (Bytes × Bytes) → List Field × List (Bytes × Bytes)
unfolding all_loop some_loop
read_record fieldcount none entries = all_loop (pos_part fieldcount) entries
read_record fieldcount (some fields) entries = some_loop (pos_part fieldcount) fields entries

-- ReadCompKeyRM behind its Seek.
unfoldable pub read_entries :
    ℤ → Bytes → Option (List Bytes) → List (Bytes × Bytes) → Status × List Field
unfolding key_from_comp_key bytes_eq read_record
read_entries fieldcount key fields [] = (k_not_found, [])
read_entries fieldcount key fields ((comp_key, value) ∷ entries) =
    if not (bytes_eq (key_from_comp_key comp_key) key)
    then (k_not_found, [])
    else (k_ok, (read_record fieldcount fields ((comp_key, value) ∷ entries)).0)

-- The outer loop of ScanCompKeyRM, with the rounds left.
unfoldable pub scan_records : ℕ → ℤ → Option (List Bytes) → List (Bytes × Bytes) → List (List Field)
unfolding read_record
scan_records zero fieldcount fields entries = []
scan_records (suc len) fieldcount fields [] = []
scan_records (suc len) fieldcount fields (entry ∷ entries) =
    let (values, rest) = read_record fieldcount fields (entry ∷ entries) in
    values ∷ scan_records len fieldcount fields rest

-- The loop of InsertCompKey.
unfoldable pub put_batch : Format → Bytes → List Field → Outcome (List BatchOp)
unfolding build_comp_key
put_batch format key [] = done []
put_batch format key (field ∷ values) = do
  comp_key ← build_comp_key format key field.name
  batch ← put_batch format key values
  done (batch_put comp_key field.value ∷ batch)

-- The loop of DeleteCompKey, with the rounds left before `i` reaches fieldcount_.
unfoldable pub delete_batch : ℕ → ℕ → Format → Bytes → Bytes → Outcome (List BatchOp)
unfolding build_comp_key field_name
delete_batch zero i format field_prefix key = done []
delete_batch (suc rounds) i format field_prefix key = do
  comp_key ← build_comp_key format key (field_name field_prefix i)
  batch ← delete_batch rounds (i + 1) format field_prefix key
  done (batch_delete comp_key ∷ batch)

module _ (kv : Kv) where
  unfoldable pub read_comp_key_rm :
      kv.State → ℤ → Bytes → Option (List Bytes) → Outcome (Status × List Field)
  unfolding read_entries
  read_comp_key_rm s fieldcount key fields =
      done (read_entries fieldcount key fields (kv.seek s key))

  -- The row that Seek finds need not be that of the key: the check is an assert.
  unfoldable pub scan_comp_key_rm :
      kv.State → ℤ → Bytes → ℤ → Option (List Bytes) → Outcome (Status × List (List Field))
  unfolding scan_records
  scan_comp_key_rm s fieldcount key len fields =
      done (k_ok, scan_records (pos_part len) fieldcount fields (kv.seek s key))

  unfoldable pub read_comp_key_cm : Outcome (Status × List Field)
  read_comp_key_cm = done (k_not_implemented, [])

  unfoldable pub scan_comp_key_cm : Outcome (Status × List (List Field))
  scan_comp_key_cm = done (k_not_implemented, [])

  unfoldable pub insert_comp_key :
      kv.State → Format → Bytes → List Field → Outcome (Status × kv.State)
  unfolding put_batch
  insert_comp_key s format key values = do
    batch ← put_batch format key values
    let wrote = kv.write s batch
    or_fail kv (lit "LevelDB Write: ") wrote.0 wrote.1

  unfoldable pub delete_comp_key :
      kv.State → ℤ → Format → Bytes → Bytes → Outcome (Status × kv.State)
  unfolding delete_batch
  delete_comp_key s fieldcount format field_prefix key = do
    batch ← delete_batch (pos_part fieldcount) 0 format field_prefix key
    let wrote = kv.write s batch
    or_fail kv (lit "LevelDB Write: ") wrote.0 wrote.1
