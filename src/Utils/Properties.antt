-- ===== src/Utils/Properties.antt =====
-- The class Properties of utils/properties.h. The std::map is an association list: the program
-- never iterates over it, so its order is not modelled.
pub mod Lookup
pub mod Files
use my_ycsb_cpp.Prelude.{
  ℕ, zero, suc, ◌+◌, Bool, true, false, List, [], ◌∷◌, ◌++◌, Option, none, some, ◌==◌, take, drop,
  if◌then◌else◌,
}
use mathlib.Core.Option
use my_ycsb_cpp.Prelude.Bytes.{Bytes, lit, bytes_eq}
use my_ycsb_cpp.Prelude.Result.{Result, ok, err, exception, out_of_range, or_throw, require, ◌>>=◌}
use my_ycsb_cpp.Utils.Text.{trim}

abbrev pub Properties : Type 0
Properties = List (Bytes × Bytes)

unfoldable pub find : Properties → Bytes → Option Bytes
unfolding bytes_eq
find [] key = none
find ((k, v) ∷ p) key = if bytes_eq k key then some v else find p key

unfoldable pub get_property : Properties → Bytes → Bytes → Bytes
unfolding find
get_property p key default_value = elim (find p key) [ none ↦ default_value | some v ↦ v ]

-- operator[], which throws where the key is missing
unfoldable pub at : Properties → Bytes → Result Bytes
unfolding find
at p key = or_throw (find p key) out_of_range

unfoldable pub set_property : Properties → Bytes → Bytes → Properties
unfolding bytes_eq
set_property [] key value = (key, value) ∷ []
set_property ((k, v) ∷ p) key value =
    if bytes_eq k key then (k, value) ∷ p else (k, v) ∷ set_property p key value

unfoldable pub contains_key : Properties → Bytes → Bool
unfolding find
contains_key p key = elim (find p key) [ none ↦ false | some v ↦ true ]

-- std::string::find_first_of and find, of one byte
unfoldable pub find_byte : ℕ → Bytes → Option ℕ
find_byte c [] = none
find_byte c (x ∷ s) = if x == c then some 0 else Option.map (λ i. i + 1) (find_byte c s)

-- `line[0]` of an empty line is the byte 0.
unfoldable pub is_comment : Bytes → Bool
is_comment [] = false
is_comment (c ∷ s) = c == b'#'

-- One round of the loop of Load, on the line that std::getline read.
unfoldable pub load_line : Properties → Bytes → Properties
unfolding set_property find_byte is_comment trim
load_line p line = if is_comment line then p else elim (find_byte b'=' line) [
  | none ↦ p
  | some i ↦ set_property p (trim (take i line)) (trim (drop (i + 1) line))
]

-- The text before the next newline, and each line after it. A file that ends with a newline has
-- an empty line at its end, since the loop reads once more before it sees eof.
unfoldable pub lines_from : Bytes → Bytes → List Bytes
lines_from line [] = line ∷ []
lines_from line (c ∷ s) =
    let rest = lines_from [] s in
    let longer = lines_from (line ++ c ∷ []) s in if c == 10 then line ∷ rest else longer

unfoldable pub load_lines : Properties → List Bytes → Properties
unfolding load_line
load_lines p [] = p
load_lines p (line ∷ rest) = load_lines (load_line p line) rest

-- An std::ifstream: whether it opened, and what it holds. Reads do not fail.
pub record InputFile : Type 0 where
  pub is_open : Bool
  pub content : Bytes

unfoldable pub load : Properties → InputFile → Result Properties
unfolding load_lines lines_from
load p input = do
  _ ← require input.is_open (exception (lit "File not open!"))
  ok (load_lines p (lines_from [] input.content))
