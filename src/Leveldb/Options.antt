-- ===== src/Leveldb/Options.antt =====
-- GetOptions of leveldb/leveldb_db.cc: the options that the properties set. An option that is not
-- set keeps LevelDB's default.
use my_ycsb_cpp.Prelude.{ℕ, zero, suc, Option, none, some, if◌then◌else◌}
use my_ycsb_cpp.Prelude.Int.{ℤ, pos, ltb_ℤ}
use my_ycsb_cpp.Prelude.Bytes.{lit, bytes_eq}
use my_ycsb_cpp.Prelude.Result.{Result, ok, ◌>>=◌}
use my_ycsb_cpp.Utils.Text.Numbers.{stoi, stol}
use my_ycsb_cpp.Utils.Properties.{Properties, get_property}
use my_ycsb_cpp.Workload.Builders.{u64_of_int}

pub data Compression : Type 0 where
  k_snappy_compression k_no_compression : Compression

pub record Options : Type 0 where
  pub write_buffer_size : Option ℕ
  pub max_file_size : Option ℕ
  pub block_cache : Option ℕ  -- the capacity of the LRU cache
  pub max_open_files : Option ℤ
  pub compression : Compression
  pub filter_policy : Option ℤ  -- the bits of the Bloom filter
  pub block_size : Option ℤ
  pub block_restart_interval : Option ℤ

-- `size_t x = std::stol(...); if (x > 0) ...`, where a negative number becomes a large one
abbrev pub size_option : ℤ → Option ℕ
size_option n = elim (u64_of_int n) [ zero ↦ none | suc m ↦ some (suc m) ]

-- `int x = std::stoi(...); if (x > 0) ...`
abbrev pub int_option : ℤ → Option ℤ
int_option n = if ltb_ℤ (pos 0) n then some n else none

unfoldable pub get_options : Properties → Result Options
unfolding get_property stoi stol bytes_eq
get_options props = do
  write_buffer_size ← stol (get_property props (lit "leveldb.write_buffer_size") (lit "0"))
  max_file_size ← stol (get_property props (lit "leveldb.max_file_size") (lit "0"))
  cache_size ← stol (get_property props (lit "leveldb.cache_size") (lit "0"))
  max_open_files ← stoi (get_property props (lit "leveldb.max_open_files") (lit "0"))
  let compression = get_property props (lit "leveldb.compression") (lit "no")
  filter_bits ← stoi (get_property props (lit "leveldb.filter_bits") (lit "0"))
  block_size ← stoi (get_property props (lit "leveldb.block_size") (lit "0"))
  restart ← stoi (get_property props (lit "leveldb.block_restart_interval") (lit "0"))
  ok (record {
    write_buffer_size = size_option write_buffer_size;
    max_file_size = size_option max_file_size;
    block_cache = size_option cache_size;
    max_open_files = int_option max_open_files;
    compression =
        if bytes_eq compression (lit "snappy") then k_snappy_compression else k_no_compression;
    filter_policy = int_option filter_bits;
    block_size = int_option block_size;
    block_restart_interval = int_option restart;
  })
