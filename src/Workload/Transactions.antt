-- ===== src/Workload/Transactions.antt =====
-- The operations of CoreWorkload: the key loops, the five transactions, DoInsert and DoTransaction,
-- of core/core_workload.cc.
pub mod Rejection
pub mod Warmup
use my_ycsb_cpp.Prelude.{
  ℕ, zero, suc, ◌+◌, ◌%◌, ◌^◌, Bool, true, false, not, List, [], ◌∷◌, Option, none, some, ltb,
  if◌then◌else◌,
}
use my_ycsb_cpp.Prelude.Int.{ℤ, pos, sub_ℕ}
use my_ycsb_cpp.Prelude.Bytes.{Bytes, lit}
use my_ycsb_cpp.Prelude.Float.{Float}
use my_ycsb_cpp.Prelude.Result.{Result, ok, err, exception}
use my_ycsb_cpp.Generators.Acknowledged
use my_ycsb_cpp.Generators.RandomCounter
use my_ycsb_cpp.Generators.Discrete
use my_ycsb_cpp.Measurements.{Operation, op_insert, op_read, op_update, op_scan, op_readmodifywrite}
use my_ycsb_cpp.Db.{Database, Field, Status, is_ok}
use my_ycsb_cpp.Workload.Keys.{build_key_name}
use my_ycsb_cpp.Workload.Sources.{
  Sources, Chooser, chooser_next, insert_next, Sequence, acked, random_acked, sequence_next,
  sequence_last,
}
use my_ycsb_cpp.Workload.State.{
  Workload, World, Run, Outcome, done, thrown, undefined, stuck, ◌>>=◌, pure,
}
use my_ycsb_cpp.Workload.Values.{basis, next_field_name, build_values, build_single_value}
use my_ycsb_cpp.Workload.Draws.{next_transaction_key_num, next_transaction_key_num_hot}

-- What the uint64_t of a length becomes as an int.
abbrev pub int_of_u64 : ℕ → ℤ
int_of_u64 n = let low = n % 2 ^ 32 in if ltb low (2 ^ 31) then pos low else sub_ℕ low (2 ^ 32)

module _ (fl : Float) (src : Sources fl) (db : Database) where
  open src use {double}

  abbrev M : Type 0 → Type 0
  M = Run fl src db

  -- BuildKeyName
  unfoldable pub key_name : ℕ → M Bytes
  unfolding build_key_name
  key_name key_num w =
      done (build_key_name w.wl.ordered_inserts w.wl.random_inserts w.wl.zero_padding key_num, w)

  -- The fields of a read: one drawn at random, or all (NULL).
  unfoldable pub read_fields : M (Option (List Bytes))
  unfolding next_field_name
  read_fields w =
      (if w.wl.read_all_fields
          then pure none
          else (do name ← next_field_name fl src db; pure (some (name ∷ []))))
        w

  unfoldable pub write_values : M (List Field)
  unfolding build_values build_single_value
  write_values w =
      (if w.wl.write_all_fields then build_values fl src db else build_single_value fl src db) w

  unfoldable pub db_read : Bytes → Option (List Bytes) → M Status
  db_read key fields w = elim (db.read w.state w.wl.table_name key fields) [
    | ok (s, result, state) ↦ done (s, record w { state = state })
    | err e ↦ thrown e
  ]

  unfoldable pub db_scan : Bytes → ℤ → Option (List Bytes) → M Status
  db_scan key len fields w = elim (db.scan w.state w.wl.table_name key len fields) [
    | ok (s, result, state) ↦ done (s, record w { state = state })
    | err e ↦ thrown e
  ]

  unfoldable pub db_update : Bytes → List Field → M Status
  db_update key values w = elim (db.update w.state w.wl.table_name key values) [
    | ok (s, state) ↦ done (s, record w { state = state })
    | err e ↦ thrown e
  ]

  unfoldable pub db_insert : Bytes → List Field → M Status
  db_insert key values w = elim (db.insert w.state w.wl.table_name key values) [
    | ok (s, state) ↦ done (s, record w { state = state })
    | err e ↦ thrown e
  ]

  unfoldable pub transaction_read : ℕ → M Status
  unfolding next_transaction_key_num_hot key_name read_fields db_read
  transaction_read fuel = do
    key_num ← next_transaction_key_num_hot fl src db fuel
    key ← key_name key_num
    fields ← read_fields
    db_read key fields

  unfoldable pub transaction_readmodifywrite : ℕ → M Status
  unfolding next_transaction_key_num key_name read_fields db_read write_values db_update
  transaction_readmodifywrite fuel = do
    key_num ← next_transaction_key_num fl src db fuel
    key ← key_name key_num
    fields ← read_fields
    ignored ← db_read key fields
    values ← write_values
    db_update key values

  unfoldable pub draw_scan_len : M ℕ
  unfolding chooser_next
  draw_scan_len w =
      let (v, g, r) = chooser_next fl src w.wl.scan_len_chooser (basis fl src db w.wl) w.rnd in
      done (v, record w { wl = record w.wl { scan_len_chooser = g }; rnd = r })

  unfoldable pub transaction_scan : ℕ → M Status
  unfolding next_transaction_key_num_hot key_name draw_scan_len read_fields db_scan
  transaction_scan fuel = do
    key_num ← next_transaction_key_num_hot fl src db fuel
    key ← key_name key_num
    len ← draw_scan_len
    fields ← read_fields
    db_scan key (int_of_u64 len) fields

  unfoldable pub transaction_update : ℕ → M Status
  unfolding next_transaction_key_num key_name write_values db_update
  transaction_update fuel = do
    key_num ← next_transaction_key_num fl src db fuel
    key ← key_name key_num
    values ← write_values
    db_update key values

  unfoldable pub draw_insert_key : M ℕ
  unfolding sequence_next
  draw_insert_key w =
      let (v, g) = sequence_next w.wl.transaction_insert_key_sequence in
      done (v, record w { wl = record w.wl { transaction_insert_key_sequence = g } })

  -- The cast goes by random_inserts_; a cast to the other class is undefined.
  unfoldable pub acknowledged_by : Bool → Sequence → ℕ → Outcome Sequence
  unfolding Acknowledged.acknowledge RandomCounter.acknowledge
  acknowledged_by false (acked g) key_num = elim (Acknowledged.acknowledge g key_num) [
    | ok g' ↦ done (acked g')
    | err e ↦ thrown e
  ]
  acknowledged_by true (random_acked g) key_num =
      done (random_acked (RandomCounter.acknowledge g key_num))
  acknowledged_by _ _ key_num = undefined

  unfoldable pub acknowledge_key : ℕ → M (Unit {0})
  unfolding acknowledged_by
  acknowledge_key key_num w =
      elim (acknowledged_by w.wl.random_inserts w.wl.transaction_insert_key_sequence key_num) [
        | done g ↦ done (tt, record w { wl = record w.wl { transaction_insert_key_sequence = g } })
        | thrown e ↦ thrown e
        | undefined ↦ undefined
        | stuck ↦ stuck
      ]

  unfoldable pub transaction_insert : M Status
  unfolding draw_insert_key key_name build_values db_insert acknowledge_key
  transaction_insert = do
    key_num ← draw_insert_key
    key ← key_name key_num
    values ← build_values fl src db
    s ← db_insert key values
    done_ ← acknowledge_key key_num
    pure s

  unfoldable pub do_insert : M Bool
  unfolding insert_next key_name build_values db_insert
  do_insert = do
    key_num ← λ w.
        let (v, g) = insert_next w.wl.insert_key_sequence in
        done (v, record w { wl = record w.wl { insert_key_sequence = g } })
    key ← key_name key_num
    fields ← build_values fl src db
    s ← db_insert key fields
    pure (is_ok s)

  -- `op_chooser_.Next()`; an operation that was never written is undefined.
  unfoldable pub choose_op : M Operation
  unfolding Discrete.next
  choose_op w =
      let (u, r) = double w.rnd in
      let (chosen, g) = Discrete.next fl w.wl.op_chooser u in
      elim chosen [
        | some op ↦ done (op, record w { wl = record w.wl { op_chooser = g }; rnd = r })
        | none ↦ undefined
      ]

  unfoldable pub choose_warmup_op : M Operation
  unfolding Discrete.next
  choose_warmup_op w =
      let (u, r) = double w.rnd in
      let (chosen, g) = Discrete.next fl w.wl.warmup_op_chooser u in
      elim chosen [
        | some op ↦ done (op, record w { wl = record w.wl { warmup_op_chooser = g }; rnd = r })
        | none ↦ undefined
      ]

  -- The switch of DoTransaction.
  unfoldable pub run_op : ℕ → Operation → M Status
  unfolding transaction_read transaction_update transaction_insert transaction_scan
      transaction_readmodifywrite
  run_op fuel op_read = transaction_read fuel
  run_op fuel op_update = transaction_update fuel
  run_op fuel op_insert = transaction_insert
  run_op fuel op_scan = transaction_scan fuel
  run_op fuel op_readmodifywrite = transaction_readmodifywrite fuel
  run_op fuel op = λ w. thrown (exception (lit "Operation request is not recognized!"))

  -- The switch of a warmup transaction, whose default leaves `status` unwritten.
  unfoldable pub run_warmup_op : ℕ → Operation → M Status
  unfolding transaction_read transaction_scan
  run_warmup_op fuel op_read = transaction_read fuel
  run_warmup_op fuel op_scan = transaction_scan fuel
  run_warmup_op fuel op = λ w. undefined

  unfoldable pub do_transaction : ℕ → M Bool
  unfolding choose_op run_op
  do_transaction fuel = do op ← choose_op; s ← run_op fuel op; pure (is_ok s)

  unfoldable pub do_transaction_in : ℕ → Bool → M Bool
  unfolding choose_op choose_warmup_op run_op run_warmup_op
  do_transaction_in fuel true = do op ← choose_warmup_op; s ← run_warmup_op fuel op; pure (is_ok s)
  do_transaction_in fuel false = do op ← choose_op; s ← run_op fuel op; pure (is_ok s)
