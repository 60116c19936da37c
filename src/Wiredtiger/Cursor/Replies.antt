-- ===== src/Wiredtiger/Cursor/Replies.antt =====
-- The operations of wiredtiger/wiredtiger_db.cc behind a search of the cursor that ended.
use my_ycsb_cpp.Prelude.{◌≡◌, refl, ap, ◌∙◌, List, [], Option, All}
use my_ycsb_cpp.Prelude.Bytes.{Bytes}
use my_ycsb_cpp.Prelude.Outcome.{Outcome, done, after_done, ◌>>=◌}
use my_ycsb_cpp.Db.{Field, k_ok, k_not_found}
use my_ycsb_cpp.Leveldb.Row.{serialize_row}
use my_ycsb_cpp.Leveldb.Row.RoundTrip.{FitsWord, deserialize_row-serialize_row}
use my_ycsb_cpp.Leveldb.Single.{overwrite_all}
use my_ycsb_cpp.Leveldb.Single.Laws.{chosen, deserialize-serialize_row}
use my_ycsb_cpp.Wiredtiger.Store.{Wt, Ret, zero_ret, not_found, other_ret}
use my_ycsb_cpp.Wiredtiger.Cursor.{error_check, read_searched, update_searched, updated}

-- A call that returns zero passes its result on.
pub passed :
    {A B : Type 0} (file : Bytes) (line : _) (r : Ret × A) (f : A → Outcome B)
    → r.0 ≡ zero_ret
    → (error_check file line r >>= f) ≡ f r.1
passed file line (zero_ret, a) f e = refl
passed file line (not_found, a) f e = cc
passed file line (other_ret, a) f e = cc

module _ (file : Bytes) (wt : Wt) where
  pub read_missing :
      (r : Ret × wt.State) (fields : Option (List Bytes))
      → r.0 ≡ not_found
      → read_searched file wt r fields ≡ done ((k_not_found, []), r.1)
  unfolding read_searched
  read_missing (zero_ret, s) fields e = cc
  read_missing (not_found, s) fields e = refl
  read_missing (other_ret, s) fields e = cc

  pub read_there :
      (r : Ret × wt.State) (row : List Field) (fields : Option (List Bytes))
      → r.0 ≡ zero_ret
      → wt.get_value r.1 ≡ (zero_ret, serialize_row row)
      → All FitsWord row
      → read_searched file wt r fields ≡ done ((k_ok, chosen row fields), r.1)
  unfolding read_searched
  read_there (zero_ret, s) row fields e got fit =
      after_done _ (ap (error_check file 220) got)
      ∙ after_done _ (deserialize-serialize_row row fields fit)
  read_there (not_found, s) row fields e got fit = cc
  read_there (other_ret, s) row fields e got fit = cc

  pub update_missing :
      (r : Ret × wt.State) (values : List Field)
      → r.0 ≡ not_found
      → update_searched file wt r values ≡ done (k_not_found, r.1)
  unfolding update_searched
  update_missing (zero_ret, s) values e = cc
  update_missing (not_found, s) values e = refl
  update_missing (other_ret, s) values e = cc

  pub updated_done : (r : Ret × wt.State) → r.0 ≡ zero_ret → updated file wt r ≡ done (k_ok, r.1)
  unfolding updated
  updated_done (zero_ret, s) e = refl
  updated_done (not_found, s) e = cc
  updated_done (other_ret, s) e = cc

  pub update_there :
      (r : Ret × wt.State) (row values : List Field)
      → r.0 ≡ zero_ret
      → wt.get_value r.1 ≡ (zero_ret, serialize_row row)
      → All FitsWord row
      → update_searched file wt r values
        ≡ updated file wt (wt.update (wt.set_value r.1 (serialize_row (overwrite_all row values))))
  unfolding update_searched
  update_there (zero_ret, s) row values e got fit =
      after_done _ (ap (error_check file 267) got)
      ∙ after_done _ (deserialize_row-serialize_row row fit)
  update_there (not_found, s) row values e got fit = cc
  update_there (other_ret, s) row values e got fit = cc
