-- ===== src/Tests/Runs.antt =====
-- The measurements, the wrapper and the workload at concrete operations.
use my_ycsb_cpp.Prelude.{
  Bool, true, false, ℕ, ◌+◌, ◌≡◌, refl, true, false, List, [], ◌∷◌, length, min, arith,
}
use my_ycsb_cpp.Prelude.Int.{pos, ◌-ℤ◌}
use my_ycsb_cpp.Prelude.Bytes.{Bytes, lit}
use my_ycsb_cpp.Prelude.Result.{ok}
use my_ycsb_cpp.Utils.Properties.{Properties}
use my_ycsb_cpp.Measurements
use my_ycsb_cpp.Measurements.{Operation, BasicMeasurements, report_list}
use my_ycsb_cpp.Measurements.Reports.{Counted, latencies_of, report_list-Counted}
use my_ycsb_cpp.Measurements.Overlap.{Counters, begin, run, HaveReturned}
use my_ycsb_cpp.Measurements.Overlap.Settled.{Settled, run-Settled}
use my_ycsb_cpp.Measurements.Overlap.Returns.{run-HaveReturned}
use my_ycsb_cpp.Db.Wrapper.{Counts, report_all}
use my_ycsb_cpp.Db.Wrapper.Warmup.{total, report_all-warmup}
use my_ycsb_cpp.Generators.Acknowledged
use my_ycsb_cpp.Generators.Discrete
use my_ycsb_cpp.Generators.Counter
use my_ycsb_cpp.Workload.Sources.{Chooser, const_gen, counter, acked, sequence_last}
use my_ycsb_cpp.Workload.State.{Workload, World, done, undefined}
use my_ycsb_cpp.Workload.Builders.{new_uniform, new_warmup_op_chooser, new_op_chooser}
use my_ycsb_cpp.Workload.Config.{init}
use my_ycsb_cpp.Workload.Config.Choosers.{IsConsistent, init-IsConsistent}
use my_ycsb_cpp.Workload.Draws.{key_loop, draw_hot_key}
use my_ycsb_cpp.Workload.Transactions.{do_transaction_in}
use my_ycsb_cpp.Workload.Transactions.Rejection.{IsAccepted, key_loop_first}
use my_ycsb_cpp.Workload.Transactions.Warmup.{warmup_without_scans}
use my_ycsb_cpp.Tests.Toys.{whole, counting, idle}

abbrev pub reports : List (Operation × ℕ)
reports = (Operation.op_read, 30) ∷ (Operation.op_insert, 5) ∷ (Operation.op_read, 10) ∷ []

report_list-Counted_example :
    Counted Operation.op_read
      (latencies_of Operation.op_read reports)
      Measurements.new
      (report_list Measurements.new reports)
unfolding Measurements.new
report_list-Counted_example =
    report_list-Counted Operation.op_read reports Measurements.new (omega arith) (omega arith)

abbrev pub zeroes : Counters
zeroes = record { count = 0; sum = 0; min = Measurements.max_u64; max = 0 }

-- Both calls read the minimum before either exchanges it, and the second loses.
abbrev pub overlapping : List (ℕ × Bool)
overlapping =
    (0, false)
    ∷ (1, false)
    ∷ (0, false)
    ∷ (1, false)
    ∷ (0, false)
    ∷ (1, false)
    ∷ (0, false)
    ∷ (1, false)
    ∷ (1, true)
    ∷ (1, false)
    ∷ (0, false)
    ∷ (1, false)
    ∷ (0, true)
    ∷ (0, false)
    ∷ (1, false)
    ∷ (1, false)
    ∷ []

run-Settled_example :
    Settled (30 ∷ 10 ∷ []) zeroes (run overlapping zeroes (begin (30 ∷ 10 ∷ []))).0
unfolding run
run-Settled_example =
    run-Settled (30 ∷ 10 ∷ []) overlapping zeroes (omega arith) (omega arith) (refl, (refl, tt))

run-HaveReturned_example :
    (schedule : List (ℕ × Bool)) × HaveReturned (run schedule zeroes (begin (30 ∷ 10 ∷ []))).1
run-HaveReturned_example = run-HaveReturned zeroes (begin (30 ∷ 10 ∷ []))

abbrev pub counts : Counts
counts = record { warmup_ops = pos 2; operation_count = 0; measurements = Measurements.new }

report_all-warmup_example :
    let d = report_all counts reports in
    (total d.measurements.warmup_count + min 0 2
      ≡ total counts.measurements.warmup_count + min (0 + length reports) 2)
    × (total d.measurements.count + total d.measurements.warmup_count
        ≡ total counts.measurements.count + total counts.measurements.warmup_count + length reports)
unfolding Measurements.new
report_all-warmup_example = report_all-warmup counts 2 reports refl (omega arith) (omega arith)

-- A workload over 100 records that chooses the hot key 7.
abbrev pub seven : Chooser whole counting
seven = const_gen (record { constant = 7 })

abbrev pub wl : Workload whole counting
wl = record {
  table_name = lit "usertable";
  field_count = pos 2;
  field_prefix = lit "field";
  read_all_fields = true;
  write_all_fields = true;
  field_len_generator = seven;
  op_chooser = Discrete.new whole Operation;
  warmup_op_chooser = new_warmup_op_chooser whole counting 0;
  key_chooser = seven;
  hot_key_chooser = seven;
  field_chooser = seven;
  scan_len_chooser = seven;
  insert_key_sequence = counter (Counter.new 0);
  transaction_insert_key_sequence = acked (Acknowledged.new 100);
  ordered_inserts = true;
  random_inserts = false;
  record_count = 100;
  zero_padding = pos 3;
  hot_data_ratio = 1;
  warmup_ratio = 0;
}

abbrev pub world : World whole counting idle
world = record { wl = wl; rnd = 0; state = 0 }

seven-IsAccepted : IsAccepted whole counting idle (draw_hot_key whole counting idle) world
unfolding draw_hot_key sequence_last Acknowledged.new
seven-IsAccepted = omega arith

key_loop_first_example :
    key_loop whole counting idle (draw_hot_key whole counting idle) 5 world
    ≡ done (draw_hot_key whole counting idle world)
key_loop_first_example =
    key_loop_first whole counting idle (draw_hot_key whole counting idle) 0 5 world (omega arith)
      (λ j lt. absurd (omega arith)) seven-IsAccepted

warmup_without_scans_example : do_transaction_in whole counting idle 5 true world ≡ undefined
warmup_without_scans_example = warmup_without_scans whole counting idle world 5 0 refl refl

abbrev pub three_records : Properties
three_records = (lit "recordcount", lit "3") ∷ (lit "insertorder", lit "ordered") ∷ []

-- What Init makes of three ordered records and the defaults.
abbrev pub loaded : Workload whole counting
loaded = record {
  table_name = lit "usertable";
  field_count = pos 10;
  field_prefix = lit "field";
  read_all_fields = true;
  write_all_fields = false;
  field_len_generator = const_gen (record { constant = 100 });
  op_chooser = new_op_chooser whole counting 0 0 0 0 0;
  warmup_op_chooser = new_warmup_op_chooser whole counting 0;
  key_chooser = new_uniform whole counting 0 2;
  hot_key_chooser = new_uniform whole counting 0 2;
  field_chooser = new_uniform whole counting 0 9;
  scan_len_chooser = new_uniform whole counting 1 1000;
  insert_key_sequence = counter (Counter.new 0);
  transaction_insert_key_sequence = acked (Acknowledged.new 3);
  ordered_inserts = true;
  random_inserts = false;
  record_count = 3;
  zero_padding = pos 24;
  hot_data_ratio = 1;
  warmup_ratio = 0;
}

init_three : init whole counting three_records 0 ≡ ok (loaded, 0)
unfolding init ◌-ℤ◌
init_three = refl

init-IsConsistent_example : IsConsistent whole counting loaded
init-IsConsistent_example = init-IsConsistent whole counting three_records 0 loaded 0 init_three
