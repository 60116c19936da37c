-- ===== src/Leveldb/Row.antt =====
-- The rows of leveldb/leveldb_db.cc: SerializeRow, DeserializeRow and DeserializeRowFilter. A
-- length is four bytes, the least first. A pointer is what is left of the data behind it; a read
-- past the end of the data is undefined behaviour.
pub mod RoundTrip
pub mod Kept
use my_ycsb_cpp.Prelude.{
  ℕ, zero, suc, ◌+◌, ◌*◌, ◌/◌, ◌%◌, ◌^◌, Bool, List, [], ◌∷◌, ◌++◌, Option, none, some, ltb, length,
  take, drop, if◌then◌else◌,
}
use my_ycsb_cpp.Prelude.Bits.{u32}
use my_ycsb_cpp.Prelude.Bytes.{Bytes, bytes_eq}
use my_ycsb_cpp.Prelude.Outcome.{Outcome, done, thrown, undefined, stuck, ◌>>=◌}
use my_ycsb_cpp.Db.{Field}

-- The bytes of a uint32_t.
abbrev pub word_bytes : ℕ → Bytes
word_bytes n = n % 256 ∷ n / 256 % 256 ∷ n / 65536 % 256 ∷ n / 16777216 % 256 ∷ []

abbrev pub chunk : Bytes → Bytes
chunk s = word_bytes (u32 (length s)) ++ s

unfoldable pub serialize_row : List Field → Bytes
serialize_row [] = []
serialize_row (field ∷ values) = chunk field.name ++ (chunk field.value ++ serialize_row values)

-- A length and the bytes behind it, and the pointer after them.
unfoldable pub read_chunk : Bytes → Outcome (Bytes × Bytes)
read_chunk (a ∷ b ∷ c ∷ d ∷ p) =
    let len = a + 256 * b + 65536 * c + 16777216 * d in
    if ltb (length p) len then undefined else done (take len p, drop len p)
read_chunk _ = undefined

-- One round of either loop: a field and its value.
unfoldable pub read_field : Bytes → Outcome (Field × Bytes)
unfolding read_chunk
read_field p = do
  field ← read_chunk p
  value ← read_chunk field.1
  done (record { name = field.0; value = value.0 }, value.1)

unfoldable pub row_loop : ℕ → Bytes → Outcome (List Field)
unfolding read_field
row_loop zero p = stuck
row_loop (suc fuel) [] = done []
row_loop (suc fuel) (b ∷ p) = do
  one ← read_field (b ∷ p)
  rest ← row_loop fuel one.1
  done (one.0 ∷ rest)

-- A round takes eight bytes at least, so that the data's length is fuel enough.
unfoldable pub deserialize_row : Bytes → Outcome (List Field)
unfolding row_loop
deserialize_row data_ = row_loop (suc (length data_)) data_

unfoldable pub filter_loop : ℕ → Bytes → List Bytes → Outcome (List Field)
unfolding read_field bytes_eq
filter_loop zero p names = stuck
filter_loop (suc fuel) [] names = done []
filter_loop (suc fuel) (b ∷ p) [] = done []
filter_loop (suc fuel) (b ∷ p) (name ∷ names) = do
  one ← read_field (b ∷ p)
  let kept = (do rest ← filter_loop fuel one.1 names; done (one.0 ∷ rest))
  let skipped = filter_loop fuel one.1 (name ∷ names)
  if bytes_eq name one.0.name then kept else skipped

unfoldable pub deserialize_row_filter : Bytes → List Bytes → Outcome (List Field)
unfolding filter_loop
deserialize_row_filter data_ fields = filter_loop (suc (length data_)) data_ fields
