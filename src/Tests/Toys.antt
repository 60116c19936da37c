-- ===== src/Tests/Toys.antt =====
-- Small instances of what the program takes from outside: a `double` of whole numbers, random
-- numbers that count up, a database that ignores its calls, and a key-value store that is a function.
use my_ycsb_cpp.Prelude.{
  ℕ, ◌+◌, ◌-◌, ◌*◌, ◌/◌, ◌^◌, refl, [], ltb, ◌==◌, Option, none, some, if◌then◌else◌, arith,
}
use my_ycsb_cpp.Prelude.Int.{pos, pos_part}
use my_ycsb_cpp.Prelude.Bytes.{Bytes, lit, bytes_eq, bytes_eq_iff, bytes_eq_refl}
use my_ycsb_cpp.Prelude.Float.{Float}
use my_ycsb_cpp.Prelude.Result.{ok}
use my_ycsb_cpp.Utils.Text.Numbers.{leading_digits}
use my_ycsb_cpp.Workload.Sources.{Sources}
use my_ycsb_cpp.Db.{Database, k_ok}
use my_ycsb_cpp.Leveldb.Store.{Kv, KvLaws, KvStatus, fine, missing}

abbrev pub whole : Float
whole = record {
  F = ℕ;
  dec = λ m k. m / 10 ^ k;
  of_ℕ = λ n. n;
  of_int = pos_part;
  to_u64 = λ n. n;
  to_int = pos;
  add = λ a b. a + b;
  sub = λ a b. a - b;
  mul = λ a b. a * b;
  div = λ a b. a / b;
  pow = λ a b. a ^ b;
  lt = ltb;
  eq = λ a b. a == b;
  stod = λ s. ok (leading_digits 0 s);
}

abbrev pub counting : Sources whole
counting = record {
  R = ℕ;
  double = λ r. (0, r + 1);
  int = λ r. (r, r + 1);
  shuffle = λ r keys. keys;
  shuffled = λ r. r + 1;
  E = ℕ;
  engine = 0;
  dist = λ e min max. (min, e + 1);
}

abbrev pub idle : Database
idle = record {
  State = ℕ;
  init = λ s. ok s;
  cleanup = λ s. ok s;
  read = λ s table key fields. ok (k_ok, [], s + 1);
  scan = λ s table key len fields. ok (k_ok, [], s + 1);
  update = λ s table key values. ok (k_ok, s + 1);
  insert = λ s table key values. ok (k_ok, s + 1);
  delete = λ s table key. ok (k_ok, s + 1);
}

abbrev pub lookup : Option Bytes → KvStatus × Bytes
lookup none = (missing (lit "NotFound: "), [])
lookup (some data_) = (fine, data_)

abbrev pub store : Kv
store = record {
  State = Bytes → Option Bytes;
  get = λ s key. lookup (s key);
  put = λ s key data_. (fine, λ k. if bytes_eq k key then some data_ else s k);
  delete = λ s key. (fine, λ k. if bytes_eq k key then none else s k);
  write = λ s batch. (fine, s);
  seek = λ s key. [];
}

pub store-KvLaws : KvLaws store
store-KvLaws = record {
  get_put = λ s key data_ accepted. rw (bytes_eq_refl key) refl;
  get_put_other = λ s key data_ other ne. ground (arith, ne, bytes_eq_iff other key);
  get_delete = λ s key accepted. (lit "NotFound: ", rw (bytes_eq_refl key) refl);
  get_delete_other = λ s key other ne. ground (arith, ne, bytes_eq_iff other key);
}
