-- ===== src/Leveldb/Single/Overwrite.antt =====
-- What an update makes of a row: the values of its fields, and their sizes.
use my_ycsb_cpp.Prelude.{
  ◌≡◌, refl, ap, ◌∙◌, List, [], ◌∷◌, Option, none, some, All, arith, Bool-cases, inl, inr,
}
use my_ycsb_cpp.Prelude.Bytes.{Bytes, bytes_eq, bytes_eq_iff}
use my_ycsb_cpp.Db.{Field}
use my_ycsb_cpp.Db.Table.{value_of, written}
use my_ycsb_cpp.Leveldb.Row.RoundTrip.{FitsWord}
use my_ycsb_cpp.Leveldb.Single.{overwrite, overwrite_all}

value_of-overwrite :
    (current_values : List Field) (field : Field) (name : Bytes)
    → value_of (overwrite current_values field) name
      ≡ written (field ∷ []) name (value_of current_values name)
unfolding overwrite
value_of-overwrite [] field name = refl
value_of-overwrite (cur ∷ current_values) field name = ground (
  arith,
  value_of-overwrite current_values field name,
  bytes_eq_iff cur.name field.name,
  bytes_eq_iff cur.name name,
  bytes_eq_iff field.name name,
)

-- An update keeps the names of a row, and gives each field the last value that the update holds
-- for its name, if there is one.
pub value_of-overwrite_all :
    (current_values values : List Field) (name : Bytes)
    → value_of (overwrite_all current_values values) name
      ≡ written values name (value_of current_values name)
unfolding overwrite_all
value_of-overwrite_all cur [] name = refl
value_of-overwrite_all cur (field ∷ values) name =
    value_of-overwrite_all (overwrite cur field) values name
    ∙ ap (written values name) (value_of-overwrite cur field name)
    ∙ one (value_of cur name)
  where
    one :
        (old : Option Bytes)
        → written values name (written (field ∷ []) name old) ≡ written (field ∷ values) name old
    one none = nothing values
      where
        nothing : (vs : List Field) → written vs name none ≡ none
        nothing [] = refl
        nothing (v ∷ vs) = refl
    one (some old) = refl

overwrite-fits :
    (cur : List Field) (field : Field)
    → All FitsWord cur
    → FitsWord field
    → All FitsWord (overwrite cur field)
unfolding overwrite
overwrite-fits [] field h f = tt
overwrite-fits (c ∷ cur) field h f = elim (Bool-cases (bytes_eq c.name field.name)) [
  | inl same ↦ rw same ((h.0.0, f.1), h.1)
  | inr other ↦ rw other (h.0, overwrite-fits cur field h.1 f)
]

pub overwrite_all-fits :
    (cur values : List Field)
    → All FitsWord cur
    → All FitsWord values
    → All FitsWord (overwrite_all cur values)
unfolding overwrite_all
overwrite_all-fits cur [] h f = h
overwrite_all-fits cur (field ∷ values) h f =
    overwrite_all-fits (overwrite cur field) values (overwrite-fits cur field h f.0) f.1
