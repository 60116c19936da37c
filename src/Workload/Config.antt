-- ===== src/Workload/Config.antt =====
-- CoreWorkload::Init of core/core_workload.cc: how the properties become the workload, with the
-- exceptions in the order of the code.
pub mod Choosers
use my_ycsb_cpp.Prelude.{
  ℕ, ◌+◌, ◌-◌, ◌%◌, ◌^◌, Bool, true, false, not, ◌||◌, ◌&&◌, List, [], ◌∷◌, ◌++◌, if◌then◌else◌,
}
use my_ycsb_cpp.Prelude.Int.{ℤ, pos, negsuc, ◌-ℤ◌}
use my_ycsb_cpp.Prelude.Bits.{u64, sub_u64}
use my_ycsb_cpp.Prelude.Bytes.{Bytes, lit, bytes_eq}
use my_ycsb_cpp.Prelude.Float.{Float}
use my_ycsb_cpp.Prelude.Result.{Result, ok, err, exception, require, ◌>>=◌}
use my_ycsb_cpp.Utils.Text.{str_to_bool}
use my_ycsb_cpp.Utils.Text.Numbers.{stoi}
use my_ycsb_cpp.Utils.Properties.{Properties, get_property, contains_key}
use my_ycsb_cpp.Generators.Counter
use my_ycsb_cpp.Generators.Acknowledged
use my_ycsb_cpp.Generators.RandomCounter
use my_ycsb_cpp.Generators.Discrete
use my_ycsb_cpp.Generators.Discrete.{DiscreteGenerator}
use my_ycsb_cpp.Generators.Uniform
use my_ycsb_cpp.Generators.Zipfian
use my_ycsb_cpp.Generators.Scrambled
use my_ycsb_cpp.Generators.Latest
use my_ycsb_cpp.Measurements.{Operation, op_insert, op_read, op_update, op_scan, op_readmodifywrite}
use my_ycsb_cpp.Workload.Sources.{
  Sources, Chooser, const_gen, uniform, zipfian, scrambled, latest, InsertSequence, counter, random,
  Sequence, acked, random_acked, sequence_last,
}
use my_ycsb_cpp.Workload.State.{Workload}
use my_ycsb_cpp.Workload.Builders.{
  u64_of_int, order_flags, new_uniform, new_zipfian, new_latest, get_field_len_generator, in_range,
  add_if, new_op_chooser, new_warmup_op_chooser, fudge, new_sequences, new_key_chooser,
  new_hot_key_chooser, new_scan_len_chooser,
}

module _ (fl : Float) (src : Sources fl) where
  open fl use {F, dec, of_ℕ, of_int, to_u64, to_int, sub, mul, lt, stod}
  open src use {R, double, shuffle, shuffled, engine, dist}

  pub record Proportions : Type 0 where
    pub reads : F
    pub updates : F
    pub inserts : F
    pub scans : F
    pub readmodifywrites : F

  unfoldable pub parse_proportions : Properties → Result Proportions
  unfolding get_property
  parse_proportions p = do
    reads ← stod (get_property p (lit "readproportion") (lit "0.95"))
    updates ← stod (get_property p (lit "updateproportion") (lit "0.05"))
    inserts ← stod (get_property p (lit "insertproportion") (lit "0.0"))
    scans ← stod (get_property p (lit "scanproportion") (lit "0.0"))
    readmodifywrites ← stod (get_property p (lit "readmodifywriteproportion") (lit "0.0"))
    ok (record {
      reads = reads;
      updates = updates;
      inserts = inserts;
      scans = scans;
      readmodifywrites = readmodifywrites;
    })

  pub record Sizes : Type 0 where
    pub record_count : ℕ
    pub min_scan_len : ℤ
    pub max_scan_len : ℤ
    pub insert_start : ℤ
    pub zero_padding : ℤ

  unfoldable pub parse_sizes : Properties → Result Sizes
  unfolding get_property stoi
  parse_sizes p = do
    record_count ← stoi (get_property p (lit "recordcount") [])
    min_scan_len ← stoi (get_property p (lit "minscanlength") (lit "1"))
    max_scan_len ← stoi (get_property p (lit "maxscanlength") (lit "1000"))
    insert_start ← stoi (get_property p (lit "insertstart") (lit "0"))
    zero_padding ← stoi (get_property p (lit "zeropadding") (lit "24"))
    ok (record {
      record_count = u64_of_int record_count;
      min_scan_len = min_scan_len;
      max_scan_len = max_scan_len;
      insert_start = insert_start;
      zero_padding = zero_padding;
    })

  -- A ratio that must lie between 0.0 and 1.0.
  unfoldable pub parse_ratio : Bytes → Bytes → Result F
  parse_ratio text message = do
    ratio ← stod text
    _ ← require (in_range fl src ratio) (exception message)
    ok ratio

  pub record Flags : Type 0 where
    pub read_all_fields : Bool
    pub write_all_fields : Bool
    pub ordered_inserts : Bool
    pub random_inserts : Bool

  unfoldable pub parse_flags : Properties → Result Flags
  unfolding get_property str_to_bool order_flags
  parse_flags p = do
    read_all_fields ← str_to_bool (get_property p (lit "readallfields") (lit "true"))
    write_all_fields ← str_to_bool (get_property p (lit "writeallfields") (lit "false"))
    order ← order_flags (get_property p (lit "insertorder") (lit "hashed"))
    ok (record {
      read_all_fields = read_all_fields;
      write_all_fields = write_all_fields;
      ordered_inserts = order.0;
      random_inserts = order.1;
    })

  -- `static_cast<uint64_t>(record_count_ * (1.0 - hot_data_ratio_))`
  abbrev pub hot_start : ℕ → F → ℕ
  hot_start record_count hot_data_ratio =
      to_u64 (mul (of_ℕ record_count) (sub (dec 1 0) hot_data_ratio))

  -- Init
  unfoldable pub init : Properties → R → Result (Workload fl src × R)
  unfolding get_property stoi get_field_len_generator parse_proportions parse_sizes parse_ratio
      parse_flags new_op_chooser new_warmup_op_chooser new_sequences new_key_chooser
      new_hot_key_chooser new_scan_len_chooser
  init p r = do
    field_count ← stoi (get_property p (lit "fieldcount") (lit "10"))
    field_len ← get_field_len_generator fl src p r
    s ← parse_proportions p
    c ← parse_sizes p
    hot_data_ratio ←
        parse_ratio (get_property p (lit "hot_data_ratio") (lit "1.0"))
          (lit "hot_data_ratio must be between 0.0 and 1.0")
    warmup_ratio ←
        parse_ratio (get_property p (lit "warmup_ratio") (lit "0.0"))
          (lit "warmup_ratio must be between 0.0 and 1.0")
    flags ← parse_flags p
    let request_dist = get_property p (lit "requestdistribution") (lit "uniform")
    sequences ←
        new_sequences fl src p flags.random_inserts c.insert_start c.record_count s.inserts
          field_len.1
    keys ←
        new_key_chooser fl src p request_dist flags.random_inserts c.record_count s.inserts
          sequences.1 sequences.2
    hot ←
        new_hot_key_chooser fl src p request_dist flags.random_inserts c.record_count s.inserts
          (hot_start c.record_count hot_data_ratio) sequences.1 keys.1
    lengths ←
        new_scan_len_chooser fl src (get_property p (lit "scanlengthdistribution") (lit "uniform"))
          c.min_scan_len c.max_scan_len hot.1
    ok (
      record {
        table_name = get_property p (lit "table") (lit "usertable");
        field_count = field_count;
        field_prefix = get_property p (lit "fieldnameprefix") (lit "field");
        read_all_fields = flags.read_all_fields;
        write_all_fields = flags.write_all_fields;
        field_len_generator = field_len.0;
        op_chooser = new_op_chooser fl src s.reads s.updates s.inserts s.scans s.readmodifywrites;
        warmup_op_chooser = new_warmup_op_chooser fl src s.scans;
        key_chooser = keys.0;
        hot_key_chooser = hot.0;
        field_chooser = new_uniform fl src 0 (u64_of_int (field_count -ℤ pos 1));
        scan_len_chooser = lengths.0;
        insert_key_sequence = sequences.0;
        transaction_insert_key_sequence = sequences.1;
        ordered_inserts = flags.ordered_inserts;
        random_inserts = flags.random_inserts;
        record_count = c.record_count;
        zero_padding = c.zero_padding;
        hot_data_ratio = hot_data_ratio;
        warmup_ratio = warmup_ratio;
      },
      lengths.1,
    )
