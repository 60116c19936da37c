-- ===== src/Db/Basic.antt =====
-- The class BasicDB of core/basic_db.cc, which writes one line for each operation. The output is
-- std::cout, or a stream with its badbit set, which takes nothing. Each operation holds the mutex
-- from its first byte to its last, so that it is one step.
pub mod Lines
use my_ycsb_cpp.Prelude.{ℕ, suc, Bool, List, [], ◌∷◌, ◌++◌, Option, none, some, if◌then◌else◌}
use my_ycsb_cpp.Prelude.Int.{ℤ, pos, negsuc}
use my_ycsb_cpp.Prelude.Bytes.{Bytes, lit, bytes_eq}
use my_ycsb_cpp.Prelude.Result.{Result, ok}
use my_ycsb_cpp.Utils.Text.Numbers.{to_string}
use my_ycsb_cpp.Utils.Properties.{Properties, get_property}
use my_ycsb_cpp.Db.{Database, Field, Status, k_ok}

pub record BasicDb : Type 0 where
  pub silent : Bool
  pub out : Bytes

-- `out << n` for an int
unfoldable pub show_int : ℤ → Bytes
unfolding to_string
show_int (pos n) = to_string n
show_int (negsuc n) = b'-' ∷ to_string (suc n)

unfoldable pub write : BasicDb → Bytes → BasicDb
write db line = if db.silent then db else record db { out = db.out ++ line }

-- The loop over the names.
unfoldable pub show_names : List Bytes → Bytes
show_names [] = []
show_names (f ∷ fields) = f ++ b' ' ∷ show_names fields

unfoldable pub show_fields : Option (List Bytes) → Bytes
unfolding show_names
show_fields none = lit " < all fields >" ++ 10 ∷ []
show_fields (some fields) = lit " [ " ++ (show_names fields ++ b']' ∷ 10 ∷ [])

unfoldable pub show_values : List Field → Bytes
show_values [] = []
show_values (v ∷ values) = v.name ++ b'=' ∷ (v.value ++ b' ' ∷ show_values values)

unfoldable pub show_record : List Field → Bytes
unfolding show_values
show_record values = lit " [ " ++ (show_values values ++ b']' ∷ 10 ∷ [])

-- The lines of the operations.
unfoldable pub read_line : Bytes → Bytes → Option (List Bytes) → Bytes
unfolding show_fields
read_line table key fields = lit "READ " ++ (table ++ b' ' ∷ (key ++ show_fields fields))

unfoldable pub scan_line : Bytes → Bytes → ℤ → Option (List Bytes) → Bytes
unfolding show_fields show_int
scan_line table key len fields =
    lit "SCAN " ++ (table ++ b' ' ∷ (key ++ b' ' ∷ (show_int len ++ show_fields fields)))

unfoldable pub update_line : Bytes → Bytes → List Field → Bytes
unfolding show_record
update_line table key values = lit "UPDATE " ++ (table ++ b' ' ∷ (key ++ show_record values))

unfoldable pub insert_line : Bytes → Bytes → List Field → Bytes
unfolding show_record
insert_line table key values = lit "INSERT " ++ (table ++ b' ' ∷ (key ++ show_record values))

unfoldable pub delete_line : Bytes → Bytes → Bytes
delete_line table key = lit "DELETE " ++ (table ++ b' ' ∷ (key ++ 10 ∷ []))

-- The database, with the properties that SetProps has given it.
unfoldable pub basic : Properties → Database
unfolding get_property bytes_eq write read_line scan_line update_line insert_line delete_line
basic props = record {
  State = BasicDb;
  init = λ db. ok (record db {
    silent = bytes_eq (get_property props (lit "basic.silent") (lit "false")) (lit "true");
  });
  cleanup = λ db. ok db;
  read = λ db table key fields. ok (k_ok, [], write db (read_line table key fields));
  scan = λ db table key len fields. ok (k_ok, [], write db (scan_line table key len fields));
  update = λ db table key values. ok (k_ok, write db (update_line table key values));
  insert = λ db table key values. ok (k_ok, write db (insert_line table key values));
  delete = λ db table key. ok (k_ok, write db (delete_line table key));
}
