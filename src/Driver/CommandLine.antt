-- ===== src/Driver/CommandLine.antt =====
-- ParseCommandLine of core/ycsbc.cc, on the arguments behind the command's name.
pub mod Settings
use my_ycsb_cpp.Prelude.{
  ℕ, ◌+◌, Bool, true, false, List, [], ◌∷◌, ◌++◌, Option, none, some, ◌==◌, ◌||◌, take, drop,
  if◌then◌else◌,
}
use my_ycsb_cpp.Prelude.Bytes.{Bytes, lit, bytes_eq}
use my_ycsb_cpp.Prelude.Result.{Result, ok, err, Thrown}
use my_ycsb_cpp.Utils.Text.{trim}
use my_ycsb_cpp.Utils.Properties.{Properties, set_property, find_byte, InputFile, load}

-- The options, by what they do.
pub data Switch : Type 0 where
  load_phase run_phase threads db_name property_file property status unknown : Switch

unfoldable pub switch_of : Bytes → Switch
unfolding bytes_eq
switch_of arg =
    if bytes_eq arg (lit "-load")
    then load_phase
    else if bytes_eq arg (lit "-run") || bytes_eq arg (lit "-t")
    then run_phase
    else if bytes_eq arg (lit "-threads")
    then threads
    else if bytes_eq arg (lit "-db")
    then db_name
    else if bytes_eq arg (lit "-P")
    then property_file
    else if bytes_eq arg (lit "-p")
    then property
    else if bytes_eq arg (lit "-s")
    then status
    else unknown

-- StrStartWith(arg, "-")
unfoldable pub starts_with_dash : Bytes → Bool
starts_with_dash [] = false
starts_with_dash (c ∷ arg) = c == b'-'

-- How the parse ends: with properties, by exit(0) after a message on the standard error stream and
-- perhaps the usage, or in an exception, which the handler for a std::string does not catch.
pub data Parsed : Type 0 where
  parsed : Properties → Parsed
  exits : Bytes → Parsed
  throws : Thrown → Parsed

-- A round of the loop changes the properties, or ends the parse.
infixl 5 ◌>>=◌
abbrev pub ◌>>=◌ : Parsed → (Properties → Parsed) → Parsed
parsed props >>= rest = rest props
exits message >>= rest = exits message
throws e >>= rest = throws e

unfoldable pub load_file : Result Properties → Parsed
load_file (ok props) = parsed props
load_file (err e) = throws e

-- The value of `-p`
unfoldable pub set_argument : Properties → Bytes → Parsed
unfolding find_byte trim set_property
set_argument props prop = elim (find_byte b'=' prop) [
  | none ↦
      exits (lit "Argument '-p' expected to be in key=value format (e.g., -p operationcount=99999)")
  | some eq ↦ parsed (set_property props (trim (take eq prop)) (trim (drop (eq + 1) prop)))
]

unfoldable pub missing_value : Bytes → Parsed
missing_value arg = exits (lit "Missing argument value for " ++ arg)

unfoldable pub unknown_option : Bytes → Parsed
unknown_option arg = exits (lit "Unknown option '" ++ (arg ++ lit "'"))

-- An option whose value is missing.
unfoldable pub parse_last : Properties → Bytes → Switch → Parsed
unfolding missing_value unknown_option set_property
parse_last props arg load_phase = parsed (set_property props (lit "doload") (lit "true"))
parse_last props arg run_phase = parsed (set_property props (lit "dotransaction") (lit "true"))
parse_last props arg status = parsed (set_property props (lit "status") (lit "true"))
parse_last props arg unknown = unknown_option arg
parse_last props arg _ = missing_value arg

-- The files that can be opened.
abbrev pub Files : Type 0
Files = Bytes → InputFile

-- The loop. An argument that is no option ends it, and with it the parse.
unfoldable pub parse_loop : Files → Properties → List Bytes → Parsed
unfolding switch_of starts_with_dash load_file set_argument unknown_option parse_last set_property
    load
parse_loop files props [] = parsed props
parse_loop files props (arg ∷ []) =
    if starts_with_dash arg then parse_last props arg (switch_of arg) else exits []
parse_loop files props (arg ∷ value ∷ rest) =
    let after : Parsed = elim (switch_of arg) [
      | load_phase ↦
          parse_loop files (set_property props (lit "doload") (lit "true")) (value ∷ rest)
      | run_phase ↦
          parse_loop files (set_property props (lit "dotransaction") (lit "true")) (value ∷ rest)
      | threads ↦ parse_loop files (set_property props (lit "threadcount") value) rest
      | db_name ↦ parse_loop files (set_property props (lit "dbname") value) rest
      | property_file ↦
          load_file (load props (files value)) >>= λ props'. parse_loop files props' rest
      | property ↦ set_argument props value >>= λ props'. parse_loop files props' rest
      | status ↦ parse_loop files (set_property props (lit "status") (lit "true")) (value ∷ rest)
      | unknown ↦ unknown_option arg
    ] in
    if starts_with_dash arg then after else exits []

unfoldable pub parse_command_line : Files → Properties → List Bytes → Parsed
unfolding parse_loop
parse_command_line files props [] = exits []
parse_command_line files props (arg ∷ rest) = parse_loop files props (arg ∷ rest)
