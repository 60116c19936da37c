-- ===== src/Leveldb/Composite/Keys.antt =====
-- The composite keys of the formats `row` and `column` of leveldb/leveldb_db.cc, and their parts.
use my_ycsb_cpp.Prelude.{◌≡◌, ◌≢◌, refl, ◌∷◌, ◌++◌, All, take-append, drop_past}
use my_ycsb_cpp.Prelude.Bytes.{Bytes}
use my_ycsb_cpp.Prelude.Outcome.{done}
use my_ycsb_cpp.Utils.Properties.Lookup.{find_byte_first}
use my_ycsb_cpp.Leveldb.Composite.{
  build_comp_key, row_major, column_major, key_from_comp_key, field_from_comp_key,
}

abbrev pub NoColon : Bytes → Type 0
NoColon = All (λ c. c ≢ b':')

abbrev pub comp_key : Bytes → Bytes → Bytes
comp_key key field = key ++ b':' ∷ field

pub key_from-comp_key :
    (key field : Bytes) → NoColon key → key_from_comp_key (comp_key key field) ≡ key
unfolding key_from_comp_key
key_from-comp_key key field h =
    rw (find_byte_first b':' key field h, key_from_comp_key) (take-append key (b':' ∷ field))

pub field_from-comp_key :
    (key field : Bytes) → NoColon key → field_from_comp_key (comp_key key field) ≡ field
unfolding field_from_comp_key
field_from-comp_key key field h =
    rw (find_byte_first b':' key field h, field_from_comp_key) (drop_past key field b':')

-- A composite key in the row format gives back the key and the field, if the key has no colon; in
-- the column format it gives the two the other way around, if the field's name has no colon.
pub build_comp_key_split :
    (key field : Bytes)
    → NoColon key
    → NoColon field
    → (row column : Bytes) × (build_comp_key row_major key field ≡ done row)
      × (key_from_comp_key row ≡ key)
      × (field_from_comp_key row ≡ field)
      × (build_comp_key column_major key field ≡ done column)
      × (key_from_comp_key column ≡ field)
      × (field_from_comp_key column ≡ key)
unfolding build_comp_key
build_comp_key_split key field h hf = (
  comp_key key field,
  comp_key field key,
  refl,
  key_from-comp_key key field h,
  field_from-comp_key key field h,
  refl,
  key_from-comp_key field key hf,
  field_from-comp_key field key hf,
)
