-- ===== src/Leveldb/Single/Stored.antt =====
-- The states of a store that stand for a table of records, and how a put and a delete change them.
use my_ycsb_cpp.Prelude.{
  ◌≡◌, refl, sym, ap, ◌∙◌, subst, List, [], ◌∷◌, Option, none, some, All, if◌then◌else◌, Bool-cases,
  inl, inr, arith,
}
use mathlib.Core.Path.{fun_ext}
use my_ycsb_cpp.Prelude.Bytes.{Bytes, bytes_eq, bytes_eq_iff, bytes_eq→eq, eq→bytes_eq}
use my_ycsb_cpp.Db.{Field}
use my_ycsb_cpp.Db.Table.{Record, Table, Request, insert, update, value_of, only, put}
use my_ycsb_cpp.Leveldb.Store.{Kv, KvLaws, KvStatus, fine, missing}
use my_ycsb_cpp.Leveldb.Row.{serialize_row}
use my_ycsb_cpp.Leveldb.Row.RoundTrip.{FitsWord, select}
use my_ycsb_cpp.Leveldb.Single.Laws.{chosen}

-- What a Get returns for a record, or for none.
abbrev pub Stored : KvStatus × Bytes → Option Record → Type 0
Stored got none = (text : Bytes) × (got.0 ≡ missing text)
Stored got (some r) =
    (row : List Field) × (got ≡ (fine, serialize_row row))
    × All FitsWord row
    × ((name : Bytes) → value_of row name ≡ r name)

abbrev pub Represents : (kv : Kv) → kv.State → Table → Type 0
Represents kv s t = (key : Bytes) → Stored (kv.get s key) (t key)

-- Writes that never fail.
pub record Accepts (kv : Kv) : Type 0 where
  pub puts : (s : kv.State) (key data_ : Bytes) → (kv.put s key data_).0 ≡ fine
  pub deletes : (s : kv.State) (key : Bytes) → (kv.delete s key).0 ≡ fine

-- A request whose names and values are shorter than 2^32 bytes.
abbrev pub FitsRow : Request → Type 0
FitsRow (insert key values) = All FitsWord values
FitsRow (update key values) = All FitsWord values
FitsRow _ = Unit

select-nil : (row : List Field) → select row [] ≡ []
unfolding select
select-nil [] = refl
select-nil (field ∷ row) = refl

value_of-select :
    (row : List Field) (asked name : Bytes)
    → value_of (select row (asked ∷ [])) name ≡ only asked (value_of row) name
unfolding select
value_of-select [] asked name = ground arith
value_of-select (field ∷ row) asked name = ground (
  arith,
  select-nil row,
  value_of-select row asked name,
  bytes_eq_iff asked field.name,
  bytes_eq_iff field.name name,
  bytes_eq_iff asked name,
)

-- What a read of a row asks for, by a request.
pub chosen_one :
    (row : List Field) (r : Record) (asked : Bytes)
    → ((name : Bytes) → value_of row name ≡ r name)
    → value_of (chosen row (some (asked ∷ []))) ≡ only asked r
chosen_one row r asked same = fun_ext λ name.
    value_of-select row asked name ∙ ap (λ v. if bytes_eq asked name then v else none) (same name)

module _ (kv : Kv) (laws : KvLaws kv) where
  pub store_put :
      (s : kv.State) (t : Table) (key : Bytes) (row : List Field) (r : Record)
      → Represents kv s t
      → (kv.put s key (serialize_row row)).0 ≡ fine
      → All FitsWord row
      → ((name : Bytes) → value_of row name ≡ r name)
      → Represents kv (kv.put s key (serialize_row row)).1 (put t key (some r))
  store_put s t key row r h accepted fit same k = elim (Bool-cases (bytes_eq k key)) [
    | inl e ↦ rw e (
      row,
      subst (λ k'. kv.get (kv.put s key (serialize_row row)).1 k' ≡ (fine, serialize_row row))
          (sym (bytes_eq→eq k key e)) (laws.get_put s key (serialize_row row) accepted),
      fit,
      same,
    )
    | inr other ↦
        rw
          (
            other,
            laws.get_put_other s key (serialize_row row) k
                (λ (e : k ≡ key). cc (other, eq→bytes_eq k key e)),
          )
          (h k)
  ]

  pub store_delete :
      (s : kv.State) (t : Table) (key : Bytes)
      → Represents kv s t
      → (kv.delete s key).0 ≡ fine
      → Represents kv (kv.delete s key).1 (put t key none)
  store_delete s t key h accepted k = elim (Bool-cases (bytes_eq k key)) [
    | inl e ↦
        let (text, gone) = laws.get_delete s key accepted in
        rw e (
          text,
          subst (λ k'. (kv.get (kv.delete s key).1 k').0 ≡ missing text) (sym (bytes_eq→eq k key e))
              gone,
        )
    | inr other ↦
        rw (other, laws.get_delete_other s key k (λ (e : k ≡ key). cc (other, eq→bytes_eq k key e)))
          (h k)
  ]
