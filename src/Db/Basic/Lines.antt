-- ===== src/Db/Basic/Lines.antt =====
-- The lines that BasicDB writes.
use my_ycsb_cpp.Prelude.{
  ℕ, suc, ◌+◌, ◌≡◌, refl, List, [], ◌∷◌, ◌++◌, Option, none, some, All, arith, ◌==◌, if◌then◌else◌,
}
use my_ycsb_cpp.Prelude.Bytes.{Bytes}
use my_ycsb_cpp.Db.{Field}
use my_ycsb_cpp.Db.Basic.{
  BasicDb, write, read_line, insert_line, update_line, delete_line, show_names, show_fields,
  show_values, show_record,
}

-- How many lines a text ends.
abbrev pub newlines : Bytes → ℕ
newlines [] = 0
newlines (c ∷ s) = if c == 10 then suc (newlines s) else newlines s

newlines-append : (s t : Bytes) → newlines (s ++ t) ≡ newlines s + newlines t
newlines-append [] t = omega arith
newlines-append (c ∷ s) t = ground (arith, newlines-append s t)

newlines-show_names :
    (fields : List Bytes) → All (λ s. newlines s ≡ 0) fields → newlines (show_names fields) ≡ 0
unfolding show_names
newlines-show_names [] h = refl
newlines-show_names (f ∷ fields) h =
    omega (arith, newlines-append f (b' ' ∷ show_names fields), newlines-show_names fields h.1, h.0)

newlines-show_values :
    (values : List Field)
    → All (λ (v : Field). (newlines v.name ≡ 0) × (newlines v.value ≡ 0)) values
    → newlines (show_values values) ≡ 0
unfolding show_values
newlines-show_values [] h = refl
newlines-show_values (v ∷ values) h = omega (
  arith,
  newlines-append v.name (b'=' ∷ (v.value ++ b' ' ∷ show_values values)),
  newlines-append v.value (b' ' ∷ show_values values),
  newlines-show_values values h.1,
  h.0.0,
  h.0.1,
)

-- No name, no value of the arguments has a newline.
abbrev pub NamesFit : Option (List Bytes) → Type 0
NamesFit none = Unit
NamesFit (some names) = All (λ s. newlines s ≡ 0) names

abbrev pub ValuesFit : List Field → Type 0
ValuesFit = All (λ (v : Field). (newlines v.name ≡ 0) × (newlines v.value ≡ 0))

newlines-show_fields :
    (fields : Option (List Bytes)) → NamesFit fields → newlines (show_fields fields) ≡ 1
unfolding show_fields
newlines-show_fields none h = refl
newlines-show_fields (some names) h =
    omega (arith, newlines-append (show_names names) (b']' ∷ 10 ∷ []), newlines-show_names names h)

newlines-show_record : (values : List Field) → ValuesFit values → newlines (show_record values) ≡ 1
unfolding show_record
newlines-show_record values h =
    omega
      (arith, newlines-append (show_values values) (b']' ∷ 10 ∷ []), newlines-show_values values h)

newlines-line :
    (table key args : Bytes)
    → newlines table ≡ 0
    → newlines key ≡ 0
    → newlines args ≡ 1
    → newlines (table ++ b' ' ∷ (key ++ args)) ≡ 1
newlines-line table key args t k a =
    omega (arith, newlines-append table (b' ' ∷ (key ++ args)), newlines-append key args)

newlines-write :
    (db : BasicDb) (line : Bytes)
    → newlines line ≡ 1
    → newlines (write db line).out ≡ (if db.silent then newlines db.out else newlines db.out + 1)
unfolding write
newlines-write db line h = ground (arith, newlines-append db.out line)

-- A read, an update, an insert and a delete of a database that is not silent write one line each
-- and end it, if the table, the key, the names and the values hold no newline; a silent database
-- writes none.
pub one_line :
    (db : BasicDb) (table key : Bytes) (fields : Option (List Bytes)) (values : List Field)
    → newlines table ≡ 0
    → newlines key ≡ 0
    → NamesFit fields
    → ValuesFit values
    → let after = if db.silent then newlines db.out else newlines db.out + 1 in
      (newlines (write db (read_line table key fields)).out ≡ after)
      × (newlines (write db (update_line table key values)).out ≡ after)
      × (newlines (write db (insert_line table key values)).out ≡ after)
      × (newlines (write db (delete_line table key)).out ≡ after)
unfolding read_line insert_line update_line delete_line
one_line db table key fields values t k f v = (
  newlines-write db _
      (newlines-line table key (show_fields fields) t k (newlines-show_fields fields f)),
  newlines-write db _
      (newlines-line table key (show_record values) t k (newlines-show_record values v)),
  newlines-write db _
      (newlines-line table key (show_record values) t k (newlines-show_record values v)),
  newlines-write db _ (newlines-line table key (10 ∷ []) t k refl),
)
