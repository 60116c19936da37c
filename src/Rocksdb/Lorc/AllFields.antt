-- ===== src/Rocksdb/Lorc/AllFields.antt =====
-- An update of all fields, as a write of the whole record.
use my_ycsb_cpp.Prelude.{
  ◌≡◌, refl, sym, ◌∙◌, subst, List, [], ◌∷◌, none, some, inl, inr, ◌↔◌, arith, Bool-cases,
  Option-cases,
}
use my_ycsb_cpp.Prelude.Bytes.{Bytes, bytes_eq, bytes_eq_iff}
use my_ycsb_cpp.Db.{Field}
use my_ycsb_cpp.Db.Table.{Record, value_of, written}

-- No name twice.
abbrev pub Distinct : List Field → Type 0
Distinct [] = Unit
Distinct (field ∷ values) = (value_of values field.name ≡ none) × Distinct values

-- The same names have values.
abbrev pub SameFields : Record → List Field → Type 0
SameFields r values = (name : Bytes) → (r name ≡ none) ↔ (value_of values name ≡ none)

written-none : (values : List Field) (name : Bytes) → written values name none ≡ none
written-none [] name = refl
written-none (field ∷ values) name = refl

-- A value that no later field of an update overwrites.
written-absent :
    (values : List Field) (name old : Bytes)
    → value_of values name ≡ none
    → written values name (some old) ≡ some old
written-absent [] name old absent = refl
written-absent (field ∷ values) name old absent = elim (Bool-cases (bytes_eq field.name name)) [
  | inl e ↦ absurd (ground (arith, absent, e))
  | inr e ↦ rw e (written-absent values name old (ground (arith, absent, e)))
]

written-Distinct :
    (values : List Field) (name old v : Bytes)
    → Distinct values
    → value_of values name ≡ some v
    → written values name (some old) ≡ some v
written-Distinct [] name old v distinct h = cc
written-Distinct (field ∷ values) name old v distinct h =
    elim (Bool-cases (bytes_eq field.name name)) [
      | inl e ↦ rw e (
          written-absent values name field.value
            (subst (λ n. value_of values n ≡ none) ((bytes_eq_iff field.name name).0 e) distinct.0)
          ∙ ground (arith, h, e))
      | inr e ↦ rw e (written-Distinct values name old v distinct.1 (ground (arith, h, e)))
    ]

-- Writing all fields of a record is replacing it.
pub value_of-all_fields :
    (r : Record) (values : List Field)
    → Distinct values
    → SameFields r values
    → (name : Bytes) → value_of values name ≡ written values name (r name)
value_of-all_fields r values distinct same name = elim (Option-cases (r name)) [
  | inl e ↦ rw e ((same name).0 e ∙ sym (written-none values name))
  | inr (old, e) ↦ elim (Option-cases (value_of values name)) [
    | inl gone ↦ absurd (ground (arith, e, (same name).1 gone))
    | inr (v, there) ↦ rw e (there ∙ sym (written-Distinct values name old v distinct there))
  ]
]
