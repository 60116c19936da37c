-- ===== src/Workload/Builders.antt =====
-- The choosers and the sequences that CoreWorkload::Init and GetFieldLenGenerator of
-- core/core_workload.cc make, with the exceptions of a distribution or an order that they do not know.
use my_ycsb_cpp.Prelude.{ℕ, ◌+◌, Bool, true, false, not, ◌||◌, [], ◌++◌, if◌then◌else◌}
use my_ycsb_cpp.Prelude.Int.{ℤ, pos, negsuc}
use my_ycsb_cpp.Prelude.Bits.{u64, sub_u64}
use my_ycsb_cpp.Prelude.Bytes.{Bytes, lit, bytes_eq}
use my_ycsb_cpp.Prelude.Float.{Float}
use my_ycsb_cpp.Prelude.Result.{Result, ok, err, exception, ◌>>=◌}
use my_ycsb_cpp.Utils.Text.Numbers.{stoi}
use my_ycsb_cpp.Utils.Properties.{Properties, get_property, contains_key}
use my_ycsb_cpp.Generators.Counter
use my_ycsb_cpp.Generators.Acknowledged
use my_ycsb_cpp.Generators.RandomCounter
use my_ycsb_cpp.Generators.Discrete
use my_ycsb_cpp.Generators.Discrete.{DiscreteGenerator}
use my_ycsb_cpp.Generators.Uniform
use my_ycsb_cpp.Generators.Zipfian
use my_ycsb_cpp.Generators.Scrambled
use my_ycsb_cpp.Generators.Latest
use my_ycsb_cpp.Measurements.{Operation, op_insert, op_read, op_update, op_scan, op_readmodifywrite}
use my_ycsb_cpp.Workload.Sources.{
  Sources, Chooser, const_gen, uniform, zipfian, scrambled, latest, InsertSequence, counter, random,
  Sequence, acked, random_acked, sequence_last,
}

-- What an int becomes as a uint64_t or a size_t.
abbrev pub u64_of_int : ℤ → ℕ
u64_of_int (pos n) = u64 n
u64_of_int (negsuc n) = sub_u64 0 (n + 1)

-- The insert orders: ordered_inserts_ and random_inserts_.
unfoldable pub order_flags : Bytes → Result (Bool × Bool)
unfolding bytes_eq
order_flags insert_order =
    if bytes_eq insert_order (lit "hashed")
    then ok (false, false)
    else if bytes_eq insert_order (lit "random")
    then ok (false, true)
    else if bytes_eq insert_order (lit "ordered")
    then ok (true, false)
    else err (exception (lit "Unknown insert order: " ++ insert_order))

module _ (fl : Float) (src : Sources fl) where
  open fl use {F, dec, of_ℕ, of_int, to_u64, to_int, sub, mul, lt, stod}
  open src use {R, double, shuffle, shuffled, engine, dist}

  -- `new UniformGenerator(min, max)`
  abbrev pub new_uniform : ℕ → ℕ → Chooser fl src
  new_uniform min max = uniform (Uniform.new dist engine min max)

  -- `new ZipfianGenerator(min, max)`
  abbrev pub new_zipfian : ℕ → ℕ → R → Chooser fl src × R
  new_zipfian min max r =
      let (u, r') = double r in (zipfian (Zipfian.new fl min max (Zipfian.zipfian_const fl) u), r')

  -- `new SkewedLatestGenerator(*counter)`
  abbrev pub new_latest : Sequence → R → Chooser fl src × R
  new_latest g r =
      let (u1, r1) = double r in
      let (u2, r2) = double r1 in (latest (Latest.new fl (sequence_last g) u1 u2), r2)

  unfoldable pub get_field_len_generator : Properties → R → Result (Chooser fl src × R)
  unfolding get_property stoi bytes_eq Zipfian.new
  get_field_len_generator p r = do
    let field_len_dist = get_property p (lit "field_len_dist") (lit "constant")
    field_len ← stoi (get_property p (lit "fieldlength") (lit "100"))
    if bytes_eq field_len_dist (lit "constant")
        then ok (const_gen (record { constant = u64_of_int field_len }), r)
        else if bytes_eq field_len_dist (lit "uniform")
        then ok (new_uniform 1 (u64_of_int field_len), r)
        else if bytes_eq field_len_dist (lit "zipfian")
        then ok (new_zipfian 1 (u64_of_int field_len) r)
        else err (exception (lit "Unknown field length distribution: " ++ field_len_dist))

  -- Whether a ratio lies between 0.0 and 1.0.
  abbrev pub in_range : F → Bool
  in_range x = not (lt x (dec 0 0) || lt (dec 1 0) x)

  -- `if (proportion > 0) op_chooser_.AddValue(op, weight);`
  unfoldable pub add_if :
      F → F → Operation → DiscreteGenerator fl Operation → DiscreteGenerator fl Operation
  unfolding Discrete.add_value
  add_if proportion weight op g =
      if lt (of_int (pos 0)) proportion then Discrete.add_value fl g op weight else g

  unfoldable pub new_op_chooser : F → F → F → F → F → DiscreteGenerator fl Operation
  unfolding add_if Discrete.new
  new_op_chooser reads updates inserts scans readmodifywrites =
      add_if readmodifywrites readmodifywrites op_readmodifywrite (
        add_if scans scans op_scan (
          add_if inserts inserts op_insert (
            add_if updates updates op_update
              (add_if reads reads op_read (Discrete.new fl Operation)))))

  unfoldable pub new_warmup_op_chooser : F → DiscreteGenerator fl Operation
  unfolding add_if Discrete.new
  new_warmup_op_chooser scans = add_if scans (dec 1 0) op_scan (Discrete.new fl Operation)

  -- `(int)(op_count * insert_proportion * 2)`
  abbrev pub fudge : ℤ → F → ℤ
  fudge op_count inserts = to_int (mul (mul (of_int op_count) inserts) (of_int (pos 2)))

  unfoldable pub new_sequences :
      Properties → Bool → ℤ → ℕ → F → R → Result (InsertSequence × Sequence × R)
  unfolding get_property stoi Counter.new RandomCounter.new RandomCounter.new_acknowledged
      Acknowledged.new
  new_sequences p true insert_start record_count inserts r = do
    op_count ← stoi (get_property p (lit "operationcount") [])
    ok (
      random (RandomCounter.new (shuffle r) (u64_of_int insert_start) record_count),
      random_acked (
          RandomCounter.new_acknowledged (shuffle (shuffled r)) record_count
            (u64_of_int (fudge op_count inserts))),
      shuffled (shuffled r),
    )
  new_sequences p false insert_start record_count inserts r =
      ok (counter (Counter.new (u64_of_int insert_start)), acked (Acknowledged.new record_count), r)

  -- key_chooser_
  unfoldable pub new_key_chooser :
      Properties → Bytes → Bool → ℕ → F → Sequence → R → Result (Chooser fl src × R)
  unfolding get_property stoi bytes_eq contains_key Scrambled.new Scrambled.new_of_items Latest.new
  new_key_chooser p request_dist random_inserts record_count inserts g r =
      if bytes_eq request_dist (lit "uniform")
      then ok (new_uniform 0 (sub_u64 record_count 1), r)
      else if bytes_eq request_dist (lit "zipfian")
      then (do
        op_count ← stoi (get_property p (lit "operationcount") [])
        let keys = u64 (record_count + u64_of_int (fudge op_count inserts))
        let (u, r') = double r
        if contains_key p (lit "zipfian_const")
            then (do
              zipfian_const ← stod (get_property p (lit "zipfian_const") [])
              ok (scrambled (Scrambled.new fl 0 (sub_u64 keys 1) zipfian_const u), r'))
            else ok (scrambled (Scrambled.new_of_items fl keys u), r'))
      else if bytes_eq request_dist (lit "latest")
      then ok
          (if random_inserts then (new_uniform 0 (sub_u64 record_count 1), r) else new_latest g r)
      else err (exception (lit "Unknown request distribution: " ++ request_dist))

  -- hot_key_chooser_
  unfoldable pub new_hot_key_chooser :
      Properties → Bytes → Bool → ℕ → F → ℕ → Sequence → R → Result (Chooser fl src × R)
  unfolding get_property stoi bytes_eq contains_key Scrambled.new Scrambled.new_of_range Latest.new
  new_hot_key_chooser p request_dist random_inserts record_count inserts hot_data_start g r =
      if bytes_eq request_dist (lit "uniform")
      then ok (new_uniform hot_data_start (sub_u64 record_count 1), r)
      else if bytes_eq request_dist (lit "zipfian")
      then (do
        op_count ← stoi (get_property p (lit "operationcount") [])
        let keys = u64 (record_count + u64_of_int (fudge op_count inserts))
        let (u, r') = double r
        if contains_key p (lit "zipfian_const")
            then (do
              zipfian_const ← stod (get_property p (lit "zipfian_const") [])
              ok (scrambled (Scrambled.new fl hot_data_start (sub_u64 keys 1) zipfian_const u), r'))
            else ok (scrambled (Scrambled.new_of_range fl hot_data_start (sub_u64 keys 1) u), r'))
      else if bytes_eq request_dist (lit "latest")
      then ok (
          if random_inserts
          then (new_uniform hot_data_start (sub_u64 record_count 1), r)
          else new_latest g r)
      else err (exception (lit "Unknown request distribution: " ++ request_dist))

  unfoldable pub new_scan_len_chooser : Bytes → ℤ → ℤ → R → Result (Chooser fl src × R)
  unfolding bytes_eq Zipfian.new
  new_scan_len_chooser scan_len_dist min_scan_len max_scan_len r =
      if bytes_eq scan_len_dist (lit "uniform")
      then ok (new_uniform (u64_of_int min_scan_len) (u64_of_int max_scan_len), r)
      else if bytes_eq scan_len_dist (lit "zipfian")
      then ok (new_zipfian (u64_of_int min_scan_len) (u64_of_int max_scan_len) r)
      else err (exception (lit "Distribution not allowed for scan length: " ++ scan_len_dist))
