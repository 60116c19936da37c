-- ===== src/Rocksdb/Options.antt =====
-- GetOptions of rocksdb/rocksdb_db.cc: the options that the properties set, in a build with a
-- RocksDB before 8. An option that is not set keeps RocksDB's default.
use my_ycsb_cpp.Prelude.{ℕ, zero, suc, Bool, not, ◌&&◌, Option, none, some, [], if◌then◌else◌}
use my_ycsb_cpp.Prelude.Int.{ℤ, pos, negsuc, ltb_ℤ}
use my_ycsb_cpp.Prelude.Bytes.{Bytes, lit, bytes_eq}
use my_ycsb_cpp.Prelude.Result.{Result, ok, err, exception, ◌>>=◌}
use my_ycsb_cpp.Utils.Text.Numbers.{stoi, stoul}
use my_ycsb_cpp.Utils.Properties.{Properties, get_property}
use my_ycsb_cpp.Leveldb.Store.{KvStatus}
use my_ycsb_cpp.Leveldb.Instance.{checked_status}
use my_ycsb_cpp.Workload.Transactions.{int_of_u64}

pub data Compression : Type 0 where
  k_no_compression k_snappy_compression k_zlib_compression k_bzip2_compression : Compression
  k_lz4_compression k_lz4hc_compression k_xpress_compression k_zstd : Compression

-- What each field is set to; the conversions to the types of the fields are RocksDB's.
pub record Options : Type 0 where
  pub compression : Compression
  pub max_background_jobs : Option ℤ
  pub target_file_size_base : Option ℤ
  pub target_file_size_multiplier : Option ℤ
  pub max_bytes_for_level_base : Option ℤ
  pub write_buffer_size : Option ℤ
  pub max_write_buffer_number : Option ℤ
  pub compaction_pri : Option ℤ
  pub max_open_files : Option ℤ
  pub level0_file_num_compaction_trigger : Option ℤ
  pub level0_slowdown_writes_trigger : Option ℤ
  pub level0_stop_writes_trigger : Option ℤ
  pub use_direct_io_for_flush_and_compaction : Bool
  pub use_direct_reads : Bool
  pub allow_mmap_writes : Bool
  pub allow_mmap_reads : Bool
  pub block_cache : Option ℕ  -- the capacity of the LRU cache
  pub block_cache_compressed : Option ℕ
  pub filter_policy : Option ℤ  -- the bits of the Bloom filter
  pub increase_parallelism : Bool
  pub optimize_level_style_compaction : Bool

-- The options of a file, which RocksDB reads, or of the properties.
pub data Config : Type 0 where
  of_file : Bytes → Config
  of_properties : Options → Config

-- The calls that may fail.
pub record Uris : Type 0 where
  pub create_from_uri : Bytes → Bytes → KvStatus
  pub load_options_from_file : Bytes → KvStatus

unfoldable pub parse_compression : Bytes → Result Compression
unfolding bytes_eq
parse_compression name =
    if bytes_eq name (lit "no")
    then ok k_no_compression
    else if bytes_eq name (lit "snappy")
    then ok k_snappy_compression
    else if bytes_eq name (lit "zlib")
    then ok k_zlib_compression
    else if bytes_eq name (lit "bzip2")
    then ok k_bzip2_compression
    else if bytes_eq name (lit "lz4")
    then ok k_lz4_compression
    else if bytes_eq name (lit "lz4hc")
    then ok k_lz4hc_compression
    else if bytes_eq name (lit "xpress")
    then ok k_xpress_compression
    else if bytes_eq name (lit "zstd")
    then ok k_zstd
    else err (exception (lit "Unknown compression type"))

abbrev pub eq_ℤ : ℤ → ℤ → Bool
eq_ℤ a b = not (ltb_ℤ a b) && not (ltb_ℤ b a)

-- `val = std::stoi(...); if (val != unset) opt->field = val;`
unfoldable pub int_option : Properties → Bytes → Bytes → ℤ → Result (Option ℤ)
unfolding get_property stoi
int_option props name default_value unset = do
  val ← stoi (get_property props name default_value)
  ok (if eq_ℤ val unset then none else some val)

-- `if (props.GetProperty(name, "false") == "true")`
unfoldable pub is_true : Properties → Bytes → Bool
unfolding get_property bytes_eq
is_true props name = bytes_eq (get_property props name (lit "false")) (lit "true")

abbrev pub size_option : ℕ → Option ℕ
size_option zero = none
size_option (suc n) = some (suc n)

unfoldable pub options_of : Properties → Result Options
unfolding get_property stoul parse_compression int_option is_true
options_of props = do
  compression ← parse_compression (get_property props (lit "rocksdb.compression") (lit "no"))
  jobs ← int_option props (lit "rocksdb.max_background_jobs") (lit "0") (pos 0)
  base ← int_option props (lit "rocksdb.target_file_size_base") (lit "0") (pos 0)
  mult ← int_option props (lit "rocksdb.target_file_size_multiplier") (lit "0") (pos 0)
  level ← int_option props (lit "rocksdb.max_bytes_for_level_base") (lit "0") (pos 0)
  buffer ← int_option props (lit "rocksdb.write_buffer_size") (lit "0") (pos 0)
  buffers ← int_option props (lit "rocksdb.max_write_buffer_number") (lit "0") (pos 0)
  pri ← int_option props (lit "rocksdb.compaction_pri") (lit "-1") (negsuc 0)
  files ← int_option props (lit "rocksdb.max_open_files") (lit "-1") (pos 0)
  trigger ← int_option props (lit "rocksdb.level0_file_num_compaction_trigger") (lit "0") (pos 0)
  slowdown ← int_option props (lit "rocksdb.level0_slowdown_writes_trigger") (lit "0") (pos 0)
  stop ← int_option props (lit "rocksdb.level0_stop_writes_trigger") (lit "0") (pos 0)
  cache_size ← stoul (get_property props (lit "rocksdb.cache_size") (lit "0"))
  compressed ← stoul (get_property props (lit "rocksdb.compressed_cache_size") (lit "0"))
  bloom ← stoul (get_property props (lit "rocksdb.bloom_bits") (lit "0"))
  let bloom_bits = int_of_u64 bloom
  ok (record {
    compression = compression;
    max_background_jobs = jobs;
    target_file_size_base = base;
    target_file_size_multiplier = mult;
    max_bytes_for_level_base = level;
    write_buffer_size = buffer;
    max_write_buffer_number = buffers;
    compaction_pri = pri;
    max_open_files = files;
    level0_file_num_compaction_trigger = trigger;
    level0_slowdown_writes_trigger = slowdown;
    level0_stop_writes_trigger = stop;
    use_direct_io_for_flush_and_compaction =
        is_true props (lit "rocksdb.use_direct_io_for_flush_compaction");
    use_direct_reads = is_true props (lit "rocksdb.use_direct_reads");
    allow_mmap_writes = is_true props (lit "rocksdb.allow_mmap_writes");
    allow_mmap_reads = is_true props (lit "rocksdb.allow_mmap_reads");
    block_cache = size_option cache_size;
    block_cache_compressed = size_option compressed;
    filter_policy = if ltb_ℤ (pos 0) bloom_bits then some bloom_bits else none;
    increase_parallelism = is_true props (lit "rocksdb.increase_parallelism");
    optimize_level_style_compaction = is_true props (lit "rocksdb.optimize_level_style_compaction");
  })

unfoldable pub get_options : Uris → Properties → Result Config
unfolding get_property bytes_eq options_of
get_options uris props = do
  let env_uri = get_property props (lit "rocksdb.env_uri") []
  let fs_uri = get_property props (lit "rocksdb.fs_uri") []
  _ ←
      (if bytes_eq env_uri [] && bytes_eq fs_uri []
        then ok tt
        else checked_status (lit "RocksDB CreateFromUri: ")
            (uris.create_from_uri env_uri fs_uri, tt))
  let options_file = get_property props (lit "rocksdb.optionsfile") []
  let load =
      checked_status (lit "RocksDB LoadOptionsFromFile: ")
        (uris.load_options_from_file options_file, of_file options_file)
  let own = (do opt ← options_of props; ok (of_properties opt))
  if bytes_eq options_file [] then own else load
