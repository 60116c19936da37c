-- ===== src/Tests/Libraries.antt =====
-- Small instances of the databases' libraries: an LMDB and a WiredTiger that keep a function, and a
-- SQLite that has one row.
use my_ycsb_cpp.Prelude.{ℕ, refl, true, [], Option, none, some, if◌then◌else◌, ◌==◌}
use my_ycsb_cpp.Prelude.Int.{pos}
use my_ycsb_cpp.Prelude.Bytes.{Bytes, lit, bytes_eq}
use my_ycsb_cpp.Leveldb.Store.{KvStatus, fine, missing}
use my_ycsb_cpp.Leveldb.Single
use my_ycsb_cpp.Lmdb.Store.{Mdb, MdbLaws, found}
use my_ycsb_cpp.Lmdb.Transactions
use my_ycsb_cpp.Wiredtiger.Store.{Ret, zero_ret, not_found, Wt, WtLaws}
use my_ycsb_cpp.Wiredtiger.Cursor
use my_ycsb_cpp.Sqlite.Store.{Sqlite, sqlite_ok, sqlite_row, sqlite_done}
use my_ycsb_cpp.Tests.Toys.{store}

pub store-Accepts : Single.Stored.Accepts store
store-Accepts = record { puts = λ s key data_. refl; deletes = λ s key. refl }

abbrev pub Content : Type 0
Content = Bytes → Option Bytes

abbrev pub changed : Content → Bytes → Option Bytes → Content
changed s key value k = if bytes_eq k key then value else s k

abbrev pub status_of : Option Bytes → KvStatus
status_of none = missing (lit "MDB_NOTFOUND")
status_of (some value) = fine

abbrev pub pages : Mdb
pages = record {
  State = Content;
  Txn = Content;
  Cursor = Unit;
  txn_begin = λ s rdonly. (fine, s);
  get = λ t key. found (lit "MDB_NOTFOUND") (t key);
  put = λ t key value. (fine, changed t key (some value));
  del = λ t key. (status_of (t key), changed t key none);
  txn_commit = λ s t. (fine, t);
  cursor_open = λ t. (fine, tt);
  cursor_set = λ c key. (missing (lit "MDB_NOTFOUND"), [], c);
  cursor_next = λ c. (missing (lit "MDB_NOTFOUND"), [], c);
}

abbrev pub pages_laws : MdbLaws pages
pages_laws = record {
  content = λ s. s;
  seen = λ t. t;
  not_found = lit "MDB_NOTFOUND";
  begin_seen = λ s rdonly key begun. refl;
  get_seen = λ t key. refl;
  put_seen = λ t key value other put. refl;
  del_seen = λ t key other deleted. refl;
  del_missing = λ t key gone. rw gone refl;
  commit_content = λ s t key committed. refl;
}

pub pages-Accepts : Transactions.Calls.Accepts pages pages_laws
pages-Accepts = record {
  begins = λ s rdonly. refl;
  puts = λ t key value. refl;
  dels = λ t key value there. rw there refl;
  commits = λ s t. refl;
}

-- A cursor's table, its key and its value.
pub record Session : Type 0 where
  pub content : Content
  pub key : Bytes
  pub value : Bytes

abbrev pub ret_of : Option Bytes → Ret
ret_of none = not_found
ret_of (some value) = zero_ret

abbrev pub value_or : Option Bytes → Bytes → Bytes
value_or none old = old
value_or (some value) old = value

abbrev pub at : Session → Session
at s = record { content = s.content; key = s.key; value = value_or (s.content s.key) s.value }

abbrev pub with_content : Session → Option Bytes → Session
with_content s value = record {
  content = changed s.content s.key value;
  key = s.key;
  value = s.value;
}

abbrev pub session : Wt
session = record {
  State = Session;
  set_key = λ s key. record { content = s.content; key = key; value = s.value };
  set_value = λ s value. record { content = s.content; key = s.key; value = value };
  get_value = λ s. (zero_ret, s.value);
  search = λ s. (ret_of (s.content s.key), at s);
  search_near = λ s. (ret_of (s.content s.key), (pos 0, at s));
  next = λ s. (not_found, s);
  insert = λ s. (zero_ret, with_content s (some s.value));
  update = λ s. (zero_ret, with_content s (some s.value));
  remove = λ s. (zero_ret, with_content s none);
}

abbrev pub session_laws : WtLaws session
session_laws = record {
  content = λ s. s.content;
  search_content = λ s key other. refl;
  search_missing = λ s key gone. rw gone refl;
  search_found = λ s key value there. rw there refl;
  value_found = λ s key value there. rw there refl;
  insert_content = λ s key value other inserted. refl;
  update_content = λ s key value other updated. refl;
  remove_content = λ s key other removed. refl;
}

pub session-Accepts : Cursor.Refines.Accepts (lit "wiredtiger_db.cc") session session_laws
session-Accepts = record {
  inserts = λ s key value. refl;
  updates = λ s key value. refl;
  removes = λ s key. refl;
}

-- A SQLite that prepares a query as itself, and has one row at first, which no step gives twice.
abbrev pub one_row : Sqlite
one_row = record {
  Conn = ℕ;
  Stmt = Bytes;
  prepare = λ c query. (sqlite_ok, query);
  bind_text = λ stmt i value. (true, stmt);
  bind_int = λ stmt i value. (true, stmt);
  step = λ c stmt. if c == 0 then (sqlite_row, (stmt, 1)) else (sqlite_done, (stmt, c));
  column_name = λ stmt i. lit "field";
  column_text = λ stmt i. some (lit "value");
  exec = λ c query. (sqlite_ok, c);
}
