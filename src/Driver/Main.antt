-- ===== src/Driver/Main.antt =====
-- The main function of core/ycsbc.cc: the stages that it runs, in their order, up to how it ends.
-- StatusThread and the printed results are not modelled. The measurements, which the stages share,
-- are those of the module Measurements.
pub mod Sessions
pub mod Phases
pub mod Tally
use my_ycsb_cpp.Prelude.{
  ℕ, zero, suc, ◌+◌, Bool, true, false, not, ◌&&◌, ◌||◌, List, [], ◌∷◌, ◌++◌, Option, none, some,
  ltb, if◌then◌else◌,
}
use my_ycsb_cpp.Prelude.Int.{ℤ, pos, negsuc, pos_part, tdiv, ltb_ℤ}
use my_ycsb_cpp.Prelude.Bytes.{Bytes, lit, bytes_eq}
use my_ycsb_cpp.Prelude.Float.{Float}
use my_ycsb_cpp.Prelude.Result.{Result, ok, err, Thrown}
use my_ycsb_cpp.Utils.Text.Numbers.{stoi}
use my_ycsb_cpp.Utils.Properties.{Properties, get_property, at}
use my_ycsb_cpp.Workload.Sources.{Sources}
use my_ycsb_cpp.Workload.State.{Workload}
use my_ycsb_cpp.Workload.Config
use my_ycsb_cpp.Measurements
use my_ycsb_cpp.Measurements.{create_measurements}
use my_ycsb_cpp.Db.Factory.{create_db}
use my_ycsb_cpp.Client.{Action, client_thread, share}
use my_ycsb_cpp.Client.Barrier.{System}
use my_ycsb_cpp.Client.Barrier
use my_ycsb_cpp.Driver.CommandLine.{Files, Parsed, parsed, exits, throws, parse_command_line}

-- A phase is the actions of its threads. The transaction phase has the latch of the warmup, the rate
-- of each thread where rates are limited, and the file with later rates.
pub data Stage : Type 0 where
  set_warmup_target : ℤ → Stage
  load_phase : List (List Action) → Stage
  reset_measurements : Stage
  sleep_for : ℤ → Stage
  transaction_phase : System → Option ℤ → Bytes → Stage

pub data Ending : Type 0 where
  finishes : Ending
  exits_with : ℕ → Bytes → Ending
  throws_out : Thrown → Ending

pub data MainRun : Type 0 where
  ends : Ending → MainRun
  stage : Stage → MainRun → MainRun

-- An exception that nothing catches.
infixl 5 ◌>>=◌
abbrev pub ◌>>=◌ : {A : Type 0} → Result A → (A → MainRun) → MainRun
ok a >>= rest = rest a
err e >>= rest = ends (throws_out e)

-- `props.GetProperty(name, "false") == "true"`
unfoldable pub is_set : Properties → Bytes → Bool
unfolding get_property bytes_eq
is_set props name = bytes_eq (get_property props name (lit "false")) (lit "true")

-- `stoi(props[name])`
unfoldable pub count_of : Properties → Bytes → Result ℤ
unfolding at stoi
count_of props name = elim (at props name) [ ok text ↦ stoi text | err e ↦ err e ]

-- The threads of the load phase from number `i` on, with the rounds left.
unfoldable pub load_threads : ℤ → ℕ → Bool → ℕ → ℕ → List (List Action)
unfolding client_thread share
load_threads total_ops num_threads do_transaction zero i = []
load_threads total_ops num_threads do_transaction (suc rounds) i =
    (client_thread (share total_ops num_threads i) true true (not do_transaction) false).0
    ∷ load_threads total_ops num_threads do_transaction rounds (i + 1)

unfoldable pub run_load : Properties → ℕ → Bool → MainRun → MainRun
unfolding count_of load_threads
run_load props num_threads do_transaction rest = do
  total_ops ← count_of props (lit "recordcount")
  stage (load_phase (load_threads total_ops num_threads do_transaction num_threads 0)) rest

unfoldable pub run_transactions : Properties → ℕ → Bool → ℤ → MainRun
unfolding get_property bytes_eq stoi count_of tdiv Barrier.transaction_phase
run_transactions props num_threads do_load warmup_ops = do
  ops_limit ← stoi (get_property props (lit "limit.ops") (lit "0"))
  let rate_file = get_property props (lit "limit.file") []
  total_ops ← count_of props (lit "operationcount")
  let limited = ltb_ℤ (pos 0) ops_limit || not (bytes_eq rate_file [])
  let rate = if limited then some (tdiv ops_limit num_threads) else none
  stage
      (transaction_phase
        (Barrier.transaction_phase total_ops warmup_ops num_threads do_load limited) rate rate_file)
      (ends finishes)

-- Both phases, behind what is set up for them.
unfoldable pub run_phases : Properties → Bool → Bool → ℕ → ℤ → MainRun
unfolding get_property stoi run_load run_transactions
run_phases props do_load do_transaction num_threads warmup_ops = do
  status_interval ← stoi (get_property props (lit "status.interval") (lit "10"))
  let transactions : MainRun = do
    seconds ← stoi (get_property props (lit "sleepafterload") (lit "0"))
    stage (sleep_for seconds) (
        if do_transaction
        then run_transactions props num_threads do_load warmup_ops
        else ends finishes)
  let behind = stage reset_measurements transactions
  if do_load then run_load props num_threads do_transaction behind else behind

-- `if (warmup_ops > 0) measurements->SetWarmupTarget(warmup_ops);`
abbrev pub with_target : ℤ → MainRun → MainRun
with_target warmup_ops rest =
    if ltb_ℤ (pos 0) warmup_ops then stage (set_warmup_target warmup_ops) rest else rest

-- CreateDB for each thread: whether it made all.
unfoldable pub creates_all : {Creator : Type 0} → List (Bytes × Creator) → Properties → ℕ → ℤ → Bool
unfolding create_db Measurements.new
creates_all registry props zero warmup_ops = true
creates_all registry props (suc threads) warmup_ops =
    let others = creates_all registry props threads warmup_ops in
    elim (create_db registry props Measurements.new warmup_ops) [
      | none ↦ false
      | some made ↦ others
    ]

-- `static_cast<int>(total_ops * wl.warmup_ratio())`, where transactions are to be done
unfoldable pub warmup_of : (fl : Float) → Properties → Bool → fl.F → Result ℤ
unfolding count_of
warmup_of fl props false ratio = ok (pos 0)
warmup_of fl props true ratio = elim (count_of props (lit "operationcount")) [
  | ok total_ops ↦ ok (fl.to_int (fl.mul (fl.of_int total_ops) ratio))
  | err e ↦ err e
]

-- `if (measurements == nullptr) exit(1);`
abbrev pub with_measurements : {Kind : Type 0} → Option Kind → MainRun → MainRun
with_measurements none rest = ends (exits_with 1 (lit "Unknown measurements name"))
with_measurements (some kind) rest = rest

module _ (fl : Float) (src : Sources fl) {Creator : Type 0} where
  -- The databases, and the phases behind them.
  unfoldable pub run_made : List (Bytes × Creator) → Properties → Bool → Bool → ℕ → ℤ → MainRun
  unfolding at creates_all run_phases
  run_made registry props do_load do_transaction num_threads warmup_ops =
      if creates_all registry props num_threads warmup_ops
      then with_target warmup_ops (run_phases props do_load do_transaction num_threads warmup_ops)
      else (at props (lit "dbname") >>= λ name.
          ends (exits_with 1 (lit "Unknown database name " ++ name)))

  -- The workload, and what is behind it. A negative number of threads starts none.
  unfoldable pub run_measured :
      List (Bytes × Creator) → Properties → Bool → Bool → ℤ → src.R → MainRun
  unfolding Config.init warmup_of run_made
  run_measured registry props do_load do_transaction num_threads r = do
    wl ← Config.init fl src props r
    warmup_ops ← warmup_of fl props do_transaction wl.0.warmup_ratio
    run_made registry props do_load do_transaction (pos_part num_threads) warmup_ops

  unfoldable pub run_threads :
      List (Bytes × Creator) → Bool → Properties → Bool → Bool → src.R → MainRun
  unfolding get_property stoi create_measurements run_measured
  run_threads registry hdr props do_load do_transaction r = do
    num_threads ← stoi (get_property props (lit "threadcount") (lit "1"))
    with_measurements (create_measurements hdr props)
        (run_measured registry props do_load do_transaction num_threads r)

  -- main behind the command line.
  unfoldable pub run_main : List (Bytes × Creator) → Bool → Properties → src.R → MainRun
  unfolding is_set run_threads
  run_main registry hdr props r =
      let do_load = is_set props (lit "doload") in
      let do_transaction = is_set props (lit "dotransaction") in
      if not do_load && not do_transaction
      then ends (exits_with 1 (lit "No operation to do"))
      else run_threads registry hdr props do_load do_transaction r

  unfoldable pub main : List (Bytes × Creator) → Bool → Files → List Bytes → src.R → MainRun
  unfolding parse_command_line run_main
  main registry hdr files argv r = elim (parse_command_line files [] argv) [
    | parsed props ↦ run_main registry hdr props r
    | exits message ↦ ends (exits_with 0 message)
    | throws e ↦ ends (throws_out e)
  ]
