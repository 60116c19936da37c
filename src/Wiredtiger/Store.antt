-- ===== src/Wiredtiger/Store.antt =====
-- The parts of the library WiredTiger that wiredtiger/wiredtiger_db.cc calls on its cursor, as an
-- interface, and what its documentation says of them. The state is that of the session: the table,
-- and the cursor with its key, its value and its place.
use my_ycsb_cpp.Prelude.{◌≡◌, Option, none, some, if◌then◌else◌}
use my_ycsb_cpp.Prelude.Int.{ℤ}
use my_ycsb_cpp.Prelude.Bytes.{Bytes, bytes_eq}

-- A return code: zero, WT_NOTFOUND, or another.
pub data Ret : Type 0 where
  zero_ret not_found other_ret : Ret

pub record Wt : Type 1 where
  pub State : Type 0
  pub set_key : State → Bytes → State
  pub set_value : State → Bytes → State
  pub get_value : State → Ret × Bytes
  pub search : State → Ret × State
  pub search_near : State → Ret × (ℤ × State)
  pub next : State → Ret × State
  pub insert : State → Ret × State
  pub update : State → Ret × State
  pub remove : State → Ret × State

abbrev pub searched : (wt : Wt) → wt.State → Bytes → Ret × wt.State
searched wt s key = wt.search (wt.set_key s key)

-- A search keeps the table, and finds what it holds. An insert and a remove of a cursor that
-- overwrites, and an update of the record that was found, change the key's record if they succeed.
pub record WtLaws (wt : Wt) : Type 0 where
  pub content : wt.State → Bytes → Option Bytes
  pub search_content :
      (s : wt.State) (key other : Bytes) → content (searched wt s key).1 other ≡ content s other
  pub search_missing :
      (s : wt.State) (key : Bytes) → content s key ≡ none → (searched wt s key).0 ≡ not_found
  pub search_found :
      (s : wt.State) (key value : Bytes)
      → content s key ≡ some value
      → (searched wt s key).0 ≡ zero_ret
  pub value_found :
      (s : wt.State) (key value : Bytes)
      → content s key ≡ some value
      → wt.get_value (searched wt s key).1 ≡ (zero_ret, value)
  pub insert_content :
      (s : wt.State) (key value other : Bytes)
      → (wt.insert (wt.set_value (wt.set_key s key) value)).0 ≡ zero_ret
      → content (wt.insert (wt.set_value (wt.set_key s key) value)).1 other
        ≡ (if bytes_eq other key then some value else content s other)
  pub update_content :
      (s : wt.State) (key value other : Bytes)
      → (wt.update (wt.set_value (searched wt s key).1 value)).0 ≡ zero_ret
      → content (wt.update (wt.set_value (searched wt s key).1 value)).1 other
        ≡ (if bytes_eq other key then some value else content s other)
  pub remove_content :
      (s : wt.State) (key other : Bytes)
      → (wt.remove (wt.set_key s key)).0 ≡ zero_ret
      → content (wt.remove (wt.set_key s key)).1 other
        ≡ (if bytes_eq other key then none else content s other)
