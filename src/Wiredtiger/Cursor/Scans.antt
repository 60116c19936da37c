-- ===== src/Wiredtiger/Cursor/Scans.antt =====
-- What the loop of ScanSingleEntry returns.
use my_ycsb_cpp.Prelude.{ℕ, zero, suc, ◌≡◌, refl, ap, ◌∙◌, List, [], ◌∷◌, Option, if◌then◌else◌}
use my_ycsb_cpp.Prelude.Int.{ℤ, pos, pos_part, ltb_ℤ}
use my_ycsb_cpp.Prelude.Bytes.{Bytes}
use my_ycsb_cpp.Prelude.Outcome.{done, after_done}
use my_ycsb_cpp.Db.{Field, k_ok}
use my_ycsb_cpp.Leveldb.Single.{deserialize}
use my_ycsb_cpp.Wiredtiger.Store.{Wt, zero_ret}
use my_ycsb_cpp.Wiredtiger.Cursor.{error_check, scan_loop, scan_from, scan_single_entry}

abbrev pub replicate : ℕ → List Field → List (List Field)
replicate zero row = []
replicate (suc n) row = row ∷ replicate n row

scan_loop-repeats :
    (file : Bytes) (wt : Wt) (rounds : ℕ) (s : wt.State) (value : Bytes) (row : List Field)
    (fields : Option (List Bytes))
    → wt.get_value s ≡ (zero_ret, value)
    → deserialize value fields ≡ done row
    → scan_loop file wt rounds s fields ≡ done (replicate rounds row)
unfolding scan_loop
scan_loop-repeats file wt zero s value row fields got is_row = refl
scan_loop-repeats file wt (suc rounds) s value row fields got is_row =
    after_done _ (ap (error_check file 242) got)
    ∙ after_done _ is_row
    ∙ after_done _ (scan_loop-repeats file wt rounds s value row fields got is_row)

-- A scan that finds a record at its key or behind it, which reads as a row, returns this row as
-- often as the length that was asked for, and no other record.
pub scan_repeats :
    (file : Bytes) (wt : Wt) (s s₁ s₂ : wt.State) (key : Bytes) (len exact : ℤ) (value : Bytes)
    (row : List Field) (fields : Option (List Bytes))
    → wt.search_near (wt.set_key s key) ≡ (zero_ret, (exact, s₁))
    → (if ltb_ℤ exact (pos 0) then wt.next s₁ else (zero_ret, s₁)) ≡ (zero_ret, s₂)
    → wt.get_value s₂ ≡ (zero_ret, value)
    → deserialize value fields ≡ done row
    → scan_single_entry file wt s key len fields ≡ done ((k_ok, replicate (pos_part len) row), s₂)
unfolding scan_single_entry
scan_repeats file wt s s₁ s₂ key len exact value row fields near moved got is_row =
    after_done _ (ap (error_check file 237) near)
    ∙ ap (λ at. scan_from file wt len at fields) moved
    ∙ (unfold scan_from in
        after_done _ (scan_loop-repeats file wt (pos_part len) s₂ value row fields got is_row))
