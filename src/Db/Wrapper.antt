-- ===== src/Db/Wrapper.antt =====
-- The class DBWrapper of core/db_wrapper.h, over any database and the measurements that it shares
-- with the other wrappers. The clock's readings at Start and End come with each call. An int
-- counter that passes its range wraps, as std::atomic<int> does.
pub mod Warmup
use my_ycsb_cpp.Prelude.{ℕ, ◌+◌, ◌^◌, ◌%◌, Bool, List, [], ◌∷◌, Option, if◌then◌else◌, ltb}
use my_ycsb_cpp.Prelude.Int.{ℤ, pos, negsuc, sub_ℕ, ltb_ℤ}
use my_ycsb_cpp.Prelude.Bytes.{Bytes}
use my_ycsb_cpp.Prelude.Result.{Result, ok, ◌>>=◌}
use my_ycsb_cpp.Utils.Timer
use my_ycsb_cpp.Measurements.{Operation, BasicMeasurements, report, report_warmup}
use my_ycsb_cpp.Measurements
use my_ycsb_cpp.Db.{Database, Field, Status, is_ok}

-- What one wrapper keeps beside its database.
pub record Counts : Type 0 where
  pub warmup_ops : ℤ
  pub operation_count : ℕ  -- the bits of the int
  pub measurements : BasicMeasurements

-- The int that the low 32 bits stand for.
abbrev pub int_of : ℕ → ℤ
int_of n = if ltb n (2 ^ 31) then pos n else sub_ℕ n (2 ^ 32)

unfoldable pub report_operation : Counts → Operation → ℕ → Counts
unfolding report report_warmup
report_operation c op latency =
    let counted = record c { operation_count = (c.operation_count + 1) % 2 ^ 32 } in
    if ltb_ℤ (int_of c.operation_count) c.warmup_ops
    then record counted { measurements = report_warmup c.measurements op }
    else record counted { measurements = report c.measurements op latency }

-- Reports in a row.
unfoldable pub report_all : Counts → List (Operation × ℕ) → Counts
report_all c [] = c
report_all c ((op, latency) ∷ reports) = report_all (report_operation c op latency) reports

-- The report after a call: the operation, or its failure.
unfoldable pub report_status : Counts → Status → Operation → Operation → ℕ → Counts
unfolding report_operation
report_status c s op failed latency = report_operation c (if is_ok s then op else failed) latency

module _ (db : Database) where
  pub record DbWrapper : Type 0 where
    pub state : db.State
    pub counts : Counts

  unfoldable pub init : DbWrapper → Result DbWrapper
  init w = do s ← db.init w.state; ok (record w { state = s })

  unfoldable pub cleanup : DbWrapper → Result DbWrapper
  cleanup w = do s ← db.cleanup w.state; ok (record w { state = s })

  -- `t0` and `t1` are the clock's readings before and after the call.
  unfoldable pub read :
      DbWrapper
      → ℕ
      → ℕ
      → Bytes
      → Bytes
      → Option (List Bytes)
      → Result (Status × List Field × DbWrapper)
  unfolding report_status Timer.start Timer.end
  read w t0 t1 table key fields = do
    done ← db.read w.state table key fields
    let counts =
        report_status w.counts done.0 Operation.op_read Operation.read_failed
          (Timer.end (Timer.start t0) t1)
    ok (done.0, done.1, record w { state = done.2; counts = counts })

  unfoldable pub scan :
      DbWrapper
      → ℕ
      → ℕ
      → Bytes
      → Bytes
      → ℤ
      → Option (List Bytes)
      → Result (Status × List (List Field) × DbWrapper)
  unfolding report_status Timer.start Timer.end
  scan w t0 t1 table key record_count fields = do
    done ← db.scan w.state table key record_count fields
    let counts =
        report_status w.counts done.0 Operation.op_scan Operation.scan_failed
          (Timer.end (Timer.start t0) t1)
    ok (done.0, done.1, record w { state = done.2; counts = counts })

  unfoldable pub update :
      DbWrapper → ℕ → ℕ → Bytes → Bytes → List Field → Result (Status × DbWrapper)
  unfolding report_status Timer.start Timer.end
  update w t0 t1 table key values = do
    done ← db.update w.state table key values
    let counts =
        report_status w.counts done.0 Operation.op_update Operation.update_failed
          (Timer.end (Timer.start t0) t1)
    ok (done.0, record w { state = done.1; counts = counts })

  unfoldable pub insert :
      DbWrapper → ℕ → ℕ → Bytes → Bytes → List Field → Result (Status × DbWrapper)
  unfolding report_status Timer.start Timer.end
  insert w t0 t1 table key values = do
    done ← db.insert w.state table key values
    let counts =
        report_status w.counts done.0 Operation.op_insert Operation.insert_failed
          (Timer.end (Timer.start t0) t1)
    ok (done.0, record w { state = done.1; counts = counts })

  unfoldable pub delete : DbWrapper → ℕ → ℕ → Bytes → Bytes → Result (Status × DbWrapper)
  unfolding report_status Timer.start Timer.end
  delete w t0 t1 table key = do
    done ← db.delete w.state table key
    let counts =
        report_status w.counts done.0 Operation.op_delete Operation.delete_failed
          (Timer.end (Timer.start t0) t1)
    ok (done.0, record w { state = done.1; counts = counts })
