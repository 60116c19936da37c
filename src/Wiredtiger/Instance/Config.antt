-- ===== src/Wiredtiger/Instance/Config.antt =====
-- The configurations of the connection and of the table that Init of wiredtiger/wiredtiger_db.cc
-- puts together from the properties.
use my_ycsb_cpp.Prelude.{Bool, not, ◌&&◌, ◌||◌, [], ◌∷◌, ◌++◌, if◌then◌else◌}
use my_ycsb_cpp.Prelude.Bytes.{Bytes, lit, bytes_eq}
use my_ycsb_cpp.Prelude.Result.{Result, ok, err, exception}
use my_ycsb_cpp.Utils.Properties.{Properties, get_property}

-- `if (!value.empty()) config += name + value + end;`
abbrev pub entry : Bytes → Bytes → Bytes → Bytes
entry name [] end = []
entry name (c ∷ value) end = name ++ (c ∷ value ++ end)

-- `if (!inner.empty()) config += open + inner + close;`
abbrev pub group : Bytes → Bytes → Bytes → Bytes
group open_ [] close_ = []
group open_ (c ∷ inner) close_ = open_ ++ (c ∷ inner ++ close_)

unfoldable pub db_config : Properties → Bytes
unfolding get_property
db_config props =
    let cache_size = get_property props (lit "wiredtiger.cache_size") (lit "100MB") in
    let direct_io = get_property props (lit "wiredtiger.direct_io") (lit "[]") in
    let in_memory = get_property props (lit "wiredtiger.in_memory") (lit "false") in
    let lsm_merge = get_property props (lit "wiredtiger.lsm_mgr.merge") (lit "true") in
    let lsm_max_workers = get_property props (lit "wiredtiger.lsm_mgr.max_workers") (lit "4") in
    let lsm_config =
      entry (lit "merge=") lsm_merge (lit ",")
      ++ entry (lit "worker_thread_max=") lsm_max_workers [] in
    lit "create,"
    ++ (entry (lit "cache_size=") cache_size (lit ",")
        ++ (entry (lit "direct_io=") direct_io (lit ",")
            ++ (entry (lit "in_memory=") in_memory (lit ",")
                ++ group (lit "lsm_manager=(") lsm_config (lit ")"))))

unfoldable pub is_compressor : Bytes → Bool
unfolding bytes_eq
is_compressor name =
    bytes_eq name (lit "snappy")
    || (bytes_eq name (lit "lz4") || (bytes_eq name (lit "zlib") || bytes_eq name (lit "zstd")))

unfoldable pub lsm_table_config : Properties → Bytes
unfolding get_property
lsm_table_config props =
    let bit_count = get_property props (lit "wiredtiger.blk_mgr.bloom_bit_count") (lit "16") in
    let hash_count = get_property props (lit "wiredtiger.blk_mgr.bloom_hash_count") (lit "8") in
    let chunk_max = get_property props (lit "wiredtiger.blk_mgr.chunk_max") (lit "5GB") in
    let chunk_size = get_property props (lit "wiredtiger.blk_mgr.chunk_size") (lit "10MB") in
    entry (lit "bloom_bit_count=") bit_count (lit ",")
    ++ (entry (lit "bloom_hash_count=") hash_count (lit ",")
        ++ (entry (lit "chunk_max=") chunk_max (lit ",")
            ++ entry (lit "chunk_size=") chunk_size []))

unfoldable pub btree_table_config : Properties → Bytes
unfolding get_property
btree_table_config props =
    let internal_page_max =
      get_property props (lit "wiredtiger.blk_mgr.btree.internal_page_max") (lit "4KB") in
    let key_max = get_property props (lit "wiredtiger.blk_mgr.btree.leaf_key_max") (lit "0") in
    let value_max = get_property props (lit "wiredtiger.blk_mgr.btree.leaf_value_max") (lit "0") in
    let page_max = get_property props (lit "wiredtiger.blk_mgr.btree.leaf_page_max") (lit "32KB") in
    entry (lit "internal_page_max=") internal_page_max (lit ",")
    ++ (entry (lit "leaf_key_max=") key_max (lit ",")
        ++ (entry (lit "leaf_value_max=") value_max (lit ",")
            ++ entry (lit "leaf_page_max=") page_max []))

unfoldable pub table_config : Properties → Result Bytes
unfolding get_property bytes_eq is_compressor lsm_table_config btree_table_config
table_config props =
    let alloc_size = get_property props (lit "wiredtiger.blk_mgr.allocation_size") (lit "4KB") in
    let compressor = get_property props (lit "wiredtiger.blk_mgr.compressor") (lit "snappy") in
    if not (bytes_eq compressor []) && not (is_compressor compressor)
    then err (exception (lit "unknown compressor name"))
    else ok (
        lit "key_format=u,value_format=u,"
        ++ (entry (lit "allocation_size=") alloc_size (lit ",")
            ++ (lit "block_compressor="
                ++ (compressor
                    ++ (lit ","
                        ++ (group (lit "lsm=(") (lsm_table_config props) (lit "),")
                            ++ btree_table_config props))))))
