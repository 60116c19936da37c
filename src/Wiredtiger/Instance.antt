-- ===== src/Wiredtiger/Instance.antt =====
-- Init and Cleanup of wiredtiger/wiredtiger_db.cc. Both run under one mutex, so that each is one
-- step. The connection, the sessions and the files are the state of a parameter.
pub mod Config
use my_ycsb_cpp.Prelude.{
  ◌%◌, ◌-◌, ◌^◌, ℕ, zero, suc, Bool, true, false, not, List, [], ◌∷◌, ◌++◌, if◌then◌else◌,
}
use my_ycsb_cpp.Prelude.Int.{ℤ, pos, negsuc, ◌+ℤ◌, ◌-ℤ◌}
use my_ycsb_cpp.Prelude.Bytes.{Bytes, lit, bytes_eq}
use my_ycsb_cpp.Prelude.Result.{Result, ok, err, exception, require, ◌>>=◌}
use my_ycsb_cpp.Utils.Text.Numbers.{stoi, to_string}
use my_ycsb_cpp.Utils.Properties.{Properties, get_property}
use my_ycsb_cpp.Lmdb.Instance.{Mkdir, checked_mkdir}
use my_ycsb_cpp.Wiredtiger.Store.{Ret, zero_ret, not_found, other_ret}
use my_ycsb_cpp.Wiredtiger.Instance.Config.{db_config, table_config}

-- error_check(x), at a line of the file
abbrev pub error_check : {A : Type 0} → Bytes → ℕ → Ret × A → Result A
error_check file line (zero_ret, a) = ok a
error_check file line (not_found, a) =
    err (exception (lit "[wiredtiger] " ++ (file ++ (lit ":" ++ to_string line))))
error_check file line (other_ret, a) =
    err (exception (lit "[wiredtiger] " ++ (file ++ (lit ":" ++ to_string line))))

-- The calls behind the cursor's.
pub record Library : Type 1 where
  pub State : Type 0
  pub mkdir : State → Bytes → Mkdir × State
  pub wiredtiger_open : State → Bytes → Bytes → Ret × State
  pub open_session : State → Ret × State
  pub create : State → Bytes → Ret × State
  pub open_cursor : State → Ret × State
  pub close_cursor : State → State
  pub close_session : State → Ret × State
  pub close_connection : State → Ret × State

-- conn_, which Cleanup does not set to null, and ref_cnt_
pub record Shared : Type 0 where
  pub is_connected : Bool
  pub ref_cnt : ℤ

-- An int assigned to the unsigned fieldcount_
abbrev pub unsigned_of_int : ℤ → ℕ
unsigned_of_int (pos n) = n % 2 ^ 32
unsigned_of_int (negsuc n) = 2 ^ 32 - 1 - n % 2 ^ 32

module _ (file : Bytes) (lib : Library) where
  -- Init of an instance that finds a connection.
  unfoldable pub join : lib.State → Result lib.State
  join w = do
    w₁ ← error_check file 111 (lib.open_session w)
    error_check file 112 (lib.open_cursor w₁)

  -- Init of the instance that opens the connection and creates the table.
  unfoldable pub connect : Properties → lib.State → Result lib.State
  unfolding get_property bytes_eq db_config table_config
  connect props w = do
    let home = get_property props (lit "wiredtiger.home") []
    _ ← require (not (bytes_eq home [])) (exception (lit "wiredtiger home is missing"))
    w₁ ← checked_mkdir (lib.mkdir w home)
    w₂ ← error_check file 149 (lib.wiredtiger_open w₁ home (db_config props))
    w₃ ← error_check file 153 (lib.open_session w₂)
    config ← table_config props
    w₄ ← error_check file 190 (lib.create w₃ config)
    error_check file 194 (lib.open_cursor w₄)

  unfoldable pub init : Properties → Shared → lib.State → Result (ℕ × Shared × lib.State)
  unfolding get_property bytes_eq stoi join connect ◌+ℤ◌
  init props sh w = do
    let format = get_property props (lit "wiredtiger.format") (lit "single")
    fieldcount ← stoi (get_property props (lit "fieldcount") (lit "10"))
    _ ← require (bytes_eq format (lit "single")) (exception (lit "single ONLY"))
    w' ← (if sh.is_connected then join w else connect props w)
    ok (
      unsigned_of_int fieldcount,
      record { is_connected = true; ref_cnt = sh.ref_cnt +ℤ pos 1 },
      w',
    )

  -- `if (--ref_cnt_) return;`, by the counter that is left
  unfoldable pub release : ℤ → lib.State → Result lib.State
  release (pos zero) w = error_check file 204 (lib.close_connection w)
  release ref_cnt w = ok w

  unfoldable pub cleanup : Shared → lib.State → Result (Shared × lib.State)
  unfolding release ◌-ℤ◌
  cleanup sh w = do
    w₁ ← error_check file 200 (lib.close_session (lib.close_cursor w))
    let left = sh.ref_cnt -ℤ pos 1
    w₂ ← release left w₁
    ok (record sh { ref_cnt = left }, w₂)
