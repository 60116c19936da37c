-- ===== src/Leveldb/Composite/Reads.antt =====
-- What the reads of the format `row` of leveldb/leveldb_db.cc make of the entries of one record.
use my_ycsb_cpp.Prelude.{
  ℕ, suc, ◌≡◌, refl, ap, List, [], ◌∷◌, ◌++◌, Option, none, some, length, if◌then◌else◌,
}
use my_ycsb_cpp.Prelude.Bytes.{Bytes, bytes_eq}
use my_ycsb_cpp.Db.{Field}
use my_ycsb_cpp.Leveldb.Row.RoundTrip.{select}
use my_ycsb_cpp.Leveldb.Composite.{entry_field, all_loop, some_loop}
use my_ycsb_cpp.Leveldb.Composite.Keys.{NoColon, field_from-comp_key}

-- The entries of one record.
abbrev pub entries_of : Bytes → List Field → List (Bytes × Bytes)
entries_of key [] = []
entries_of key (field ∷ values) = (key ++ b':' ∷ field.name, field.value) ∷ entries_of key values

pub entry_field-of :
    (key : Bytes) (field : Field)
    → NoColon key
    → entry_field (key ++ b':' ∷ field.name, field.value) ≡ field
entry_field-of key field h =
    ap (λ n. record { name = n; value = field.value }) (field_from-comp_key key field.name h)

pub all_loop-entries :
    (key : Bytes) (values : List Field) (rest : List (Bytes × Bytes))
    → NoColon key
    → all_loop (length values) (entries_of key values ++ rest) ≡ (values, rest)
unfolding all_loop
all_loop-entries key [] rest h = refl
all_loop-entries key (field ∷ values) rest h =
    rw (all_loop-entries key values rest h, entry_field-of key field h) refl

pub some_loop_step :
    (rounds : ℕ) (name : Bytes) (names : List Bytes) (entry : Bytes × Bytes)
    (entries : List (Bytes × Bytes)) (field : Field)
    → entry_field entry ≡ field
    → some_loop (suc rounds) (name ∷ names) (entry ∷ entries) ≡ (
        if bytes_eq field.name name
        then (field ∷ (some_loop rounds names entries).0, (some_loop rounds names entries).1)
        else some_loop rounds (name ∷ names) entries)
unfolding some_loop
some_loop_step rounds name names entry entries field e =
    ap
      (λ (f : Field).
        if bytes_eq f.name name
        then (f ∷ (some_loop rounds names entries).0, (some_loop rounds names entries).1)
        else some_loop rounds (name ∷ names) entries)
      e

abbrev pub asked : List Field → Option (List Bytes) → List Field
asked values none = values
asked values (some names) = select values names
