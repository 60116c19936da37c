-- ===== src/Measurements.antt =====
-- core/measurements: the enum Operation, BasicMeasurements and CreateMeasurements, which names the
-- kind it makes. HdrHistogramMeasurements keeps the histograms of a library and is not modelled.
-- A call runs alone here; Overlap is Report step by step.
pub mod Reports
pub mod Overlap
use my_ycsb_cpp.Prelude.{
  ℕ, zero, suc, ◌+◌, ◌-◌, ◌/◌, ◌%◌, ◌^◌, Bool, true, false, List, [], ◌∷◌, ◌++◌, ◌==◌, ltb, ◌&&◌,
  if◌then◌else◌, Option, none, some, foldl,
}
use my_ycsb_cpp.Prelude.Int.{ℤ, pos, ltb_ℤ}
use my_ycsb_cpp.Prelude.Bits.{u64, u32}
use my_ycsb_cpp.Prelude.Bytes.{Bytes, lit, bytes_eq}
use my_ycsb_cpp.Utils.Properties.{Properties, get_property}

pub data Operation : Type 0 where
  op_insert op_read op_update op_scan op_readmodifywrite op_delete : Operation
  insert_failed read_failed update_failed scan_failed readmodifywrite_failed delete_failed :
      Operation

-- The operations in the order of the enum.
abbrev pub operations : List Operation
operations =
    op_insert ∷ op_read ∷ op_update ∷ op_scan ∷ op_readmodifywrite ∷ op_delete ∷ insert_failed
    ∷ read_failed ∷ update_failed ∷ scan_failed ∷ readmodifywrite_failed ∷ delete_failed ∷ []

-- The index of an operation in the arrays.
abbrev pub op_index : Operation → ℕ
op_index op_insert = 0
op_index op_read = 1
op_index op_update = 2
op_index op_scan = 3
op_index op_readmodifywrite = 4
op_index op_delete = 5
op_index insert_failed = 6
op_index read_failed = 7
op_index update_failed = 8
op_index scan_failed = 9
op_index readmodifywrite_failed = 10
op_index delete_failed = 11

-- kOperationString
unfoldable pub operation_string : Operation → Bytes
operation_string op_insert = lit "INSERT"
operation_string op_read = lit "READ"
operation_string op_update = lit "UPDATE"
operation_string op_scan = lit "SCAN"
operation_string op_readmodifywrite = lit "READMODIFYWRITE"
operation_string op_delete = lit "DELETE"
operation_string insert_failed = lit "INSERT-FAILED"
operation_string read_failed = lit "READ-FAILED"
operation_string update_failed = lit "UPDATE-FAILED"
operation_string scan_failed = lit "SCAN-FAILED"
operation_string readmodifywrite_failed = lit "READMODIFYWRITE-FAILED"
operation_string delete_failed = lit "DELETE-FAILED"

-- One array, by operation.
abbrev pub put_at {ℓ} : {A : Type ℓ} → (Operation → A) → Operation → A → Operation → A
put_at f op a j = if op_index j == op_index op then a else f j

pub record BasicMeasurements : Type 0 where
  pub count : Operation → ℕ
  pub latency_sum : Operation → ℕ
  pub latency_min : Operation → ℕ
  pub latency_max : Operation → ℕ
  pub warmup_count : Operation → ℕ
  pub total_warmup_ops : ℤ

abbrev pub max_u64 : ℕ
max_u64 = 2 ^ 64 - 1

unfoldable pub new : BasicMeasurements
new = record {
  count = λ _. 0;
  latency_sum = λ _. 0;
  latency_min = λ _. max_u64;
  latency_max = λ _. 0;
  warmup_count = λ _. 0;
  total_warmup_ops = pos 0;
}

unfoldable pub report : BasicMeasurements → Operation → ℕ → BasicMeasurements
report m op latency = record m {
  count = put_at m.count op (u32 (m.count op + 1));
  latency_sum = put_at m.latency_sum op (u64 (m.latency_sum op + latency));
  latency_min =
      put_at m.latency_min op
        (if ltb latency (m.latency_min op) then latency else m.latency_min op);
  latency_max =
      put_at m.latency_max op
        (if ltb (m.latency_max op) latency then latency else m.latency_max op);
}

-- Reports in a row.
unfoldable pub report_list : BasicMeasurements → List (Operation × ℕ) → BasicMeasurements
report_list m [] = m
report_list m ((op, latency) ∷ reports) = report_list (report m op latency) reports

unfoldable pub report_warmup : BasicMeasurements → Operation → BasicMeasurements
report_warmup m op = record m {
  warmup_count = put_at m.warmup_count op (u32 (m.warmup_count op + 1));
}

unfoldable pub set_warmup_target : BasicMeasurements → ℤ → BasicMeasurements
set_warmup_target m n = record m { total_warmup_ops = n }

-- Reset keeps the warmup target.
unfoldable pub reset : BasicMeasurements → BasicMeasurements
reset m = record m {
  count = λ _. 0;
  latency_sum = λ _. 0;
  latency_min = λ _. max_u64;
  latency_max = λ _. 0;
  warmup_count = λ _. 0;
}

unfoldable pub sum_over : (Operation → ℕ) → List Operation → ℕ
sum_over f [] = 0
sum_over f (op ∷ ops) = u64 (f op + sum_over f ops)

-- One line of the status message: the operation, its count, maximum, minimum and sum.
pub record Line : Type 0 where
  pub op : Operation
  pub count : ℕ
  pub max : ℕ
  pub min : ℕ
  pub sum : ℕ

-- The values that GetStatusMsg formats: the total, the warmup progress where it is shown, and a
-- line for each operation that was counted.
pub record StatusMsg : Type 0 where
  pub total : ℕ
  pub warmup : Option (ℕ × ℤ)
  pub lines : List Line

unfoldable pub status_lines : BasicMeasurements → List Operation → List Line
status_lines m [] = []
status_lines m (op ∷ ops) =
    let rest = status_lines m ops in
    if m.count op == 0
    then rest
    else record {
      op = op;
      count = m.count op;
      max = m.latency_max op;
      min = m.latency_min op;
      sum = m.latency_sum op;
    }
      ∷ rest

unfoldable pub get_status_msg : BasicMeasurements → StatusMsg
unfolding sum_over status_lines
get_status_msg m =
    let warm = sum_over m.warmup_count operations in
    record {
      total = u64 (warm + sum_over m.count operations);
      warmup =
          if ltb_ℤ (pos 0) m.total_warmup_ops && ltb_ℤ (pos warm) m.total_warmup_ops
          then some (warm, m.total_warmup_ops)
          else none;
      lines = status_lines m operations;
    }

-- CreateMeasurements in a build without HDRMEASUREMENT.
pub data Kind : Type 0 where
  basic hdr_histogram : Kind

unfoldable pub create_measurements : Bool → Properties → Option Kind
unfolding bytes_eq get_property
create_measurements hdr props =
    let default_name = if hdr then lit "hdrhistogram" else lit "basic" in
    let name = get_property props (lit "measurementtype") default_name in
    if bytes_eq name (lit "basic")
    then some basic
    else if hdr && bytes_eq name (lit "hdrhistogram")
    then some hdr_histogram
    else none
