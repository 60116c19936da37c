-- ===== src/Driver/CommandLine/Settings.antt =====
-- A command line that is a sequence of settings.
use my_ycsb_cpp.Prelude.{◌≡◌, ◌≢◌, true, List, [], ◌∷◌, ◌++◌, All}
use my_ycsb_cpp.Prelude.Bytes.{Bytes, lit}
use my_ycsb_cpp.Utils.Text.{trim}
use my_ycsb_cpp.Utils.Properties.{Properties, set_property, load_lines, lines_from}
use my_ycsb_cpp.Driver.CommandLine.{Files}

pub data Setting : Type 0 where
  load_phase run_phase status : Setting
  threads db_name property_file : Bytes → Setting
  property : Bytes → Bytes → Setting

unfoldable pub arguments_of : Setting → List Bytes
arguments_of load_phase = lit "-load" ∷ []
arguments_of run_phase = lit "-t" ∷ []
arguments_of status = lit "-s" ∷ []
arguments_of (threads n) = lit "-threads" ∷ n ∷ []
arguments_of (db_name name) = lit "-db" ∷ name ∷ []
arguments_of (property_file path) = lit "-P" ∷ path ∷ []
arguments_of (property key value) = lit "-p" ∷ (key ++ b'=' ∷ value) ∷ []

unfoldable pub command_line : List Setting → List Bytes
unfolding arguments_of
command_line [] = []
command_line (setting ∷ settings) = arguments_of setting ++ command_line settings

-- What a setting makes of the properties.
unfoldable pub applied : Files → Properties → Setting → Properties
applied files props load_phase = set_property props (lit "doload") (lit "true")
applied files props run_phase = set_property props (lit "dotransaction") (lit "true")
applied files props status = set_property props (lit "status") (lit "true")
applied files props (threads n) = set_property props (lit "threadcount") n
applied files props (db_name name) = set_property props (lit "dbname") name
applied files props (property_file path) = load_lines props (lines_from [] (files path).content)
applied files props (property key value) = set_property props (trim key) (trim value)

-- A property's name without a `=`, and a file that can be opened.
abbrev pub IsSetting : Files → Setting → Type 0
IsSetting files (property key value) = All (λ c. c ≢ b'=') key
IsSetting files (property_file path) = (files path).is_open ≡ true
IsSetting files _ = Unit
