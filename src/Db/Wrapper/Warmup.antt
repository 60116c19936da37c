-- ===== src/Db/Wrapper/Warmup.antt =====
-- Which operations of a wrapper are counted as warmup.
use my_ycsb_cpp.Prelude.{
  ℕ, suc, ◌+◌, ◌-◌, ◌≤◌, ◌<◌, ◌^◌, ◌≡◌, ap, List, [], ◌∷◌, length, min, arith, Bool-cases, inl, inr,
}
use my_ycsb_cpp.Prelude.Int.{pos, ltb_ℤ}
use my_ycsb_cpp.Prelude.Bits.{u32}
use my_ycsb_cpp.Measurements.{Operation, report, report_warmup, put_at}
use my_ycsb_cpp.Db.Wrapper.{Counts, int_of, report_operation, report_all}

-- The operations reported so far, of all kinds: measured, and in warmup.
abbrev pub total : (Operation → ℕ) → ℕ
total f =
    f Operation.op_insert
    + f Operation.op_read
    + f Operation.op_update
    + f Operation.op_scan
    + f Operation.op_readmodifywrite
    + f Operation.op_delete
    + f Operation.insert_failed
    + f Operation.read_failed
    + f Operation.update_failed
    + f Operation.scan_failed
    + f Operation.readmodifywrite_failed
    + f Operation.delete_failed

total-bump :
    (f : Operation → ℕ) (op : Operation)
    → total f < 2 ^ 32 - 1
    → total (put_at f op (u32 (f op + 1))) ≡ total f + 1
total-bump f Operation.op_insert h = omega arith
total-bump f _ h = omega arith

abbrev measured : Counts → ℕ
measured c = total c.measurements.count

abbrev warmed : Counts → ℕ
warmed c = total c.measurements.warmup_count

report_operation_lem :
    (c : Counts) (w : ℕ) (op : Operation) (latency : ℕ)
    → c.warmup_ops ≡ pos w
    → c.operation_count + 1 < 2 ^ 31
    → total c.measurements.count + total c.measurements.warmup_count + 1 < 2 ^ 32
    → let d = report_operation c op latency in
      (d.warmup_ops ≡ pos w)
      × (d.operation_count ≡ c.operation_count + 1)
      × (total d.measurements.warmup_count + min c.operation_count w
          ≡ total c.measurements.warmup_count + min (c.operation_count + 1) w)
      × (total d.measurements.count + total d.measurements.warmup_count
          ≡ total c.measurements.count + total c.measurements.warmup_count + 1)
unfolding report_operation report report_warmup
report_operation_lem c w op latency is_w small fits =
    elim (Bool-cases (ltb_ℤ (int_of c.operation_count) c.warmup_ops)) [
      | inl warm ↦
          let below : c.operation_count < w = ground arith in
          rw warm (
            is_w,
            omega arith,
            omega (arith, total-bump c.measurements.warmup_count op),
            omega (arith, total-bump c.measurements.warmup_count op),
          )
      | inr past ↦
          let above : w ≤ c.operation_count = ground arith in
          rw past
            (is_w, omega arith, omega arith, omega (arith, total-bump c.measurements.count op))
    ]

-- Of the reports that a wrapper makes, those numbered below its warmup count are counted as warmup
-- and all the others are measured, whatever the operations, if no counter reaches its range.
pub report_all-warmup :
    (c : Counts) (w : ℕ) (reports : List (Operation × ℕ))
    → c.warmup_ops ≡ pos w
    → c.operation_count + length reports < 2 ^ 31
    → total c.measurements.count + total c.measurements.warmup_count + length reports < 2 ^ 32
    → let d = report_all c reports in
      (total d.measurements.warmup_count + min c.operation_count w
        ≡ total c.measurements.warmup_count + min (c.operation_count + length reports) w)
      × (total d.measurements.count + total d.measurements.warmup_count
          ≡ total c.measurements.count + total c.measurements.warmup_count + length reports)
unfolding report_all
report_all-warmup c w [] is_w small fits =
    let e : c.operation_count + 0 ≡ c.operation_count = omega arith in
    (omega (arith, ap (λ (t : ℕ). min t w) e), omega arith)
report_all-warmup c w ((op, latency) ∷ reports) is_w small fits =
    let (w1, n1, a1, b1) = report_operation_lem c w op latency is_w (omega arith) (omega arith) in
    let (a2, b2) =
      report_all-warmup (report_operation c op latency) w reports w1 (omega arith) (omega arith) in
    let e : c.operation_count + suc (length reports) ≡ c.operation_count + 1 + length reports =
      omega arith in
    let e1 = ap (λ (t : ℕ). min t w) e in
    let e2 = ap (λ (t : ℕ). min (t + length reports) w) n1 in
    let e3 = ap (λ (t : ℕ). min t w) n1 in (omega arith, omega arith)
