-- ===== src/Wiredtiger/Cursor.antt =====
-- ReadSingleEntry, ScanSingleEntry, UpdateSingleEntry, InsertSingleEntry and DeleteSingleEntry of
-- wiredtiger/wiredtiger_db.cc. The name of the file, __FILE__, is a parameter.
pub mod Replies
pub mod Refines
pub mod Scans
use my_ycsb_cpp.Prelude.{
  ℕ, zero, suc, Bool, true, false, List, [], ◌∷◌, ◌++◌, Option, none, some, if◌then◌else◌,
}
use my_ycsb_cpp.Prelude.Int.{ℤ, pos, pos_part, ltb_ℤ}
use my_ycsb_cpp.Prelude.Bytes.{Bytes, lit}
use my_ycsb_cpp.Prelude.Result.{exception}
use my_ycsb_cpp.Prelude.Outcome.{Outcome, done, thrown, undefined, stuck, ◌>>=◌}
use my_ycsb_cpp.Utils.Text.Numbers.{to_string}
use my_ycsb_cpp.Db.{Field, Status, k_ok, k_not_found}
use my_ycsb_cpp.Leveldb.Row.{deserialize_row, serialize_row}
use my_ycsb_cpp.Leveldb.Single.{deserialize, overwrite_all}
use my_ycsb_cpp.Wiredtiger.Store.{Wt, Ret, zero_ret, not_found, other_ret, searched}

-- error_check(x), at a line of the file
abbrev pub error_check : {A : Type 0} → Bytes → ℕ → Ret × A → Outcome A
error_check file line (zero_ret, a) = done a
error_check file line (not_found, a) =
    thrown (exception (lit "[wiredtiger] " ++ (file ++ (lit ":" ++ to_string line))))
error_check file line (other_ret, a) =
    thrown (exception (lit "[wiredtiger] " ++ (file ++ (lit ":" ++ to_string line))))

module _ (file : Bytes) (wt : Wt) where
  -- ReadSingleEntry behind its search.
  unfoldable pub read_searched :
      Ret × wt.State → Option (List Bytes) → Outcome ((Status × List Field) × wt.State)
  unfolding deserialize
  read_searched (not_found, s) fields = done ((k_not_found, []), s)
  read_searched (other_ret, s) fields = thrown (exception (lit "wiredtiger search error"))
  read_searched (zero_ret, s) fields = do
    value ← error_check file 220 (wt.get_value s)
    values ← deserialize value fields
    done ((k_ok, values), s)

  unfoldable pub read_single_entry :
      wt.State → Bytes → Option (List Bytes) → Outcome ((Status × List Field) × wt.State)
  unfolding read_searched
  read_single_entry s key fields = read_searched (searched wt s key) fields

  -- The loop of ScanSingleEntry, which reads the cursor's value in each round and does not move it.
  unfoldable pub scan_loop : ℕ → wt.State → Option (List Bytes) → Outcome (List (List Field))
  unfolding deserialize
  scan_loop zero s fields = done []
  scan_loop (suc rounds) s fields = do
    value ← error_check file 242 (wt.get_value s)
    values ← deserialize value fields
    rest ← scan_loop rounds s fields
    done (values ∷ rest)

  -- `for (i = 0; !ret && i < len; ++i)`, with the `ret` of the cursor's move before it
  unfoldable pub scan_from :
      ℤ → Ret × wt.State → Option (List Bytes) → Outcome ((Status × List (List Field)) × wt.State)
  unfolding scan_loop
  scan_from len (zero_ret, s) fields = do
    rows ← scan_loop (pos_part len) s fields
    done ((k_ok, rows), s)
  scan_from len (not_found, s) fields = done ((k_ok, []), s)
  scan_from len (other_ret, s) fields = done ((k_ok, []), s)

  unfoldable pub scan_single_entry :
      wt.State → Bytes → ℤ → Option (List Bytes) → Outcome ((Status × List (List Field)) × wt.State)
  unfolding scan_from
  scan_single_entry s key len fields = do
    near ← error_check file 237 (wt.search_near (wt.set_key s key))
    scan_from len (if ltb_ℤ near.0 (pos 0) then wt.next near.1 else (zero_ret, near.1)) fields

  -- UpdateSingleEntry behind its cursor's update.
  unfoldable pub updated : Ret × wt.State → Outcome (Status × wt.State)
  updated (zero_ret, s) = done (k_ok, s)
  updated (not_found, s) = done (k_not_found, s)
  updated (other_ret, s) = thrown (exception (lit "wiredtiger update error"))

  -- UpdateSingleEntry behind its search.
  unfoldable pub update_searched : Ret × wt.State → List Field → Outcome (Status × wt.State)
  unfolding deserialize_row overwrite_all serialize_row updated
  update_searched (not_found, s) values = done (k_not_found, s)
  update_searched (other_ret, s) values = thrown (exception (lit "wiredtiger search error"))
  update_searched (zero_ret, s) values = do
    value ← error_check file 267 (wt.get_value s)
    current_values ← deserialize_row value
    updated (wt.update (wt.set_value s (serialize_row (overwrite_all current_values values))))

  unfoldable pub update_single_entry : wt.State → Bytes → List Field → Outcome (Status × wt.State)
  unfolding update_searched
  update_single_entry s key values = update_searched (searched wt s key) values

  unfoldable pub insert_single_entry : wt.State → Bytes → List Field → Outcome (Status × wt.State)
  unfolding serialize_row
  insert_single_entry s key values = do
    s' ← error_check file 305 (wt.insert (wt.set_value (wt.set_key s key) (serialize_row values)))
    done (k_ok, s')

  unfoldable pub delete_single_entry : wt.State → Bytes → Outcome (Status × wt.State)
  delete_single_entry s key = do
    s' ← error_check file 312 (wt.remove (wt.set_key s key))
    done (k_ok, s')
