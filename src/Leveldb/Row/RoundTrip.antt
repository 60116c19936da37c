-- ===== src/Leveldb/Row/RoundTrip.antt =====
-- What the readers of a row make of a row that SerializeRow wrote.
use my_ycsb_cpp.Prelude.{
  ℕ, zero, suc, ◌+◌, ◌*◌, ◌/◌, ◌%◌, ◌^◌, ◌<◌, ◌≡◌, refl, ◌∙◌, List, [], ◌∷◌, ◌++◌, length, All,
  arith, if◌then◌else◌, length-append, take-append, drop-append, Bool-cases, inl, inr, ge→ltb,
}
use my_ycsb_cpp.Prelude.Bits.{u32}
use my_ycsb_cpp.Prelude.Bytes.{Bytes, bytes_eq}
use my_ycsb_cpp.Prelude.Outcome.{done, after_done}
use my_ycsb_cpp.Db.{Field}
use my_ycsb_cpp.Leveldb.Row.{
  chunk, serialize_row, read_chunk, read_field, row_loop, deserialize_row, filter_loop,
  deserialize_row_filter,
}

-- A field whose lengths fit into 32 bits.
abbrev pub FitsWord : Field → Type 0
FitsWord field = (length field.name < 2 ^ 32) × (length field.value < 2 ^ 32)

word :
    (n : ℕ)
    → n < 2 ^ 32
    → n % 256 + 256 * (n / 256 % 256) + 65536 * (n / 65536 % 256) + 16777216 * (n / 16777216 % 256)
      ≡ n
word n h = omega arith

read_chunk-chunk :
    (s rest : Bytes) → length s < 2 ^ 32 → read_chunk (chunk s ++ rest) ≡ done (s, rest)
unfolding read_chunk
read_chunk-chunk s rest h =
    let small : u32 (length s) ≡ length s = omega arith in
    rw
      (
        small,
        word (length s) h,
        ge→ltb (length (s ++ rest)) (length s) (omega (arith, length-append s rest)),
        take-append s rest,
        drop-append s rest,
      )
      refl

read_field-chunks :
    (field : Field) (rest : Bytes)
    → FitsWord field
    → read_field (chunk field.name ++ (chunk field.value ++ rest)) ≡ done (field, rest)
unfolding read_field
read_field-chunks field rest h =
    after_done _ (read_chunk-chunk field.name (chunk field.value ++ rest) h.0)
    ∙ after_done _ (read_chunk-chunk field.value rest h.1)

length-serialize_row :
    (field : Field) (values : List Field)
    → length (serialize_row values) < length (serialize_row (field ∷ values))
unfolding serialize_row
length-serialize_row field values = omega (
  arith,
  length-append field.name (chunk field.value ++ serialize_row values),
  length-append field.value (serialize_row values),
)

row_loop-serialize_row :
    (fuel : ℕ) (values : List Field)
    → length (serialize_row values) < fuel
    → All FitsWord values
    → row_loop fuel (serialize_row values) ≡ done values
unfolding row_loop serialize_row
row_loop-serialize_row zero values enough fit = absurd (omega arith)
row_loop-serialize_row (suc fuel) [] enough fit = refl
row_loop-serialize_row (suc fuel) (field ∷ values) enough fit =
    let less = length-serialize_row field values in
    after_done _ (read_field-chunks field (serialize_row values) fit.0)
    ∙ after_done _ (row_loop-serialize_row fuel values (omega (arith, less)) fit.1)

-- Reading a whole row gives back the fields that were written, in their order, if every name and
-- every value is shorter than 2^32 bytes.
pub deserialize_row-serialize_row :
    (values : List Field)
    → All FitsWord values
    → deserialize_row (serialize_row values) ≡ done values
unfolding deserialize_row
deserialize_row-serialize_row values fit =
    row_loop-serialize_row (suc (length (serialize_row values))) values (omega arith) fit

-- The fields that the names ask for: the first with the first name, then, behind it, the first
-- with the second name, and so on.
unfoldable pub select : List Field → List Bytes → List Field
unfolding bytes_eq
select [] names = []
select (field ∷ values) [] = []
select (field ∷ values) (name ∷ names) =
    if bytes_eq name field.name then field ∷ select values names else select values (name ∷ names)

filter_loop-serialize_row :
    (fuel : ℕ) (values : List Field) (names : List Bytes)
    → length (serialize_row values) < fuel
    → All FitsWord values
    → filter_loop fuel (serialize_row values) names ≡ done (select values names)
unfolding filter_loop select serialize_row
filter_loop-serialize_row zero values names enough fit = absurd (omega arith)
filter_loop-serialize_row (suc fuel) [] names enough fit = refl
filter_loop-serialize_row (suc fuel) (field ∷ values) [] enough fit = refl
filter_loop-serialize_row (suc fuel) (field ∷ values) (name ∷ names) enough fit =
    let less = length-serialize_row field values in
    after_done _ (read_field-chunks field (serialize_row values) fit.0)
    ∙ (elim (Bool-cases (bytes_eq name field.name)) [
      | inl same ↦
          rw same
            (after_done _ (filter_loop-serialize_row fuel values names (omega (arith, less)) fit.1))
      | inr other ↦
          rw other
            (filter_loop-serialize_row fuel values (name ∷ names) (omega (arith, less)) fit.1)
    ])

pub deserialize_row_filter-serialize_row :
    (values : List Field) (names : List Bytes)
    → All FitsWord values
    → deserialize_row_filter (serialize_row values) names ≡ done (select values names)
unfolding deserialize_row_filter
deserialize_row_filter-serialize_row values names fit =
    filter_loop-serialize_row (suc (length (serialize_row values))) values names (omega arith) fit
