-- ===== src/Driver/Main/Tally.antt =====
-- What both phases of a run that ends normally have done with the databases.
use my_ycsb_cpp.Prelude.{
  ℕ, ◌+◌, ◌<◌, ◌≡◌, refl, subst, Bool, true, false, not, ◌&&◌, ◌||◌, List, [], Bool-cases, inl, inr,
  arith, if◌then◌else◌,
}
use my_ycsb_cpp.Prelude.Int.{ℤ, pos, pos_part, ltb_ℤ}
use my_ycsb_cpp.Prelude.Bytes.{Bytes, lit, bytes_eq}
use my_ycsb_cpp.Prelude.Result.{Result, ok, err}
use my_ycsb_cpp.Utils.Text.Numbers.{stoi}
use my_ycsb_cpp.Utils.Properties.{Properties, get_property}
use my_ycsb_cpp.Client.{Action}
use my_ycsb_cpp.Client.Actions.{count, inits, cleanups, inserts, transactions}
use my_ycsb_cpp.Client.Barrier.{System, left, transaction_threads}
use my_ycsb_cpp.Client.Barrier
use my_ycsb_cpp.Driver.Main.{
  Stage, set_warmup_target, load_phase, reset_measurements, sleep_for, transaction_phase, Ending,
  finishes, MainRun, ends, stage, ◌>>=◌, count_of, run_load, run_transactions, run_phases,
  with_target,
}
use my_ycsb_cpp.Driver.Main.Phases.{
  thread, load_threads-each, load_threads-all, transaction_threads-each, transaction_threads-all,
}

abbrev pub ending : MainRun → Ending
ending (ends e) = e
ending (stage s rest) = ending rest

abbrev pub threads_of : Stage → List (List Action)
threads_of (load_phase threads) = threads
threads_of (transaction_phase system rate rate_file) = system.threads
threads_of _ = []

-- How often thread `i` takes a kind of action over all stages, and how often all threads do.
abbrev pub done_by : (Action → ℕ) → ℕ → MainRun → ℕ
done_by f i (ends e) = 0
done_by f i (stage s rest) = count f (thread (threads_of s) i) + done_by f i rest

abbrev pub done_in_all : (Action → ℕ) → MainRun → ℕ
done_in_all f (ends e) = 0
done_in_all f (stage s rest) = left f (threads_of s) + done_in_all f rest

-- The number of a property, where its phase is to be run, and zero where it is not.
abbrev pub Counted : Bool → Properties → Bytes → ℕ → Type 0
Counted false props name k = k ≡ 0
Counted true props name k = (n : ℤ) × (count_of props name ≡ ok n) × (k ≡ pos_part n)

-- What follows a result that was no exception, in a run that ends normally.
pub bind_elim :
    {A : Type 0} (P : MainRun → Type 0) (m : Result A) (f : A → MainRun)
    → ending (m >>= f) ≡ finishes
    → ((a : A) → m ≡ ok a → ending (f a) ≡ finishes → P (f a))
    → P (m >>= f)
bind_elim P (ok a) f e h = h a refl e
bind_elim P (err x) f e h = absurd (cc e)

module _ (props : Properties) (n : ℕ) (some_threads : 0 < n) where
  -- Each thread has opened its database `opens` times and closed it `closes` times, and the threads
  -- have done the operations of the phases that are run.
  pub record HasDone (loads runs : Bool) (opens closes : ℕ) (run : MainRun) : Type 0 where
    pub opened : (i : ℕ) → i < n → done_by inits i run ≡ opens
    pub closed : (i : ℕ) → i < n → done_by cleanups i run ≡ closes
    pub inserted : Counted loads props (lit "recordcount") (done_in_all inserts run)
    pub transacted : Counted runs props (lit "operationcount") (done_in_all transactions run)

  run_transactions-HasDone :
      (do_load : Bool) (warmup_ops : ℤ)
      → ending (run_transactions props n do_load warmup_ops) ≡ finishes
      → HasDone false true
          (if not do_load then 1 else 0)
          1
          (run_transactions props n do_load warmup_ops)
  unfolding run_transactions Barrier.transaction_phase
  run_transactions-HasDone do_load warmup_ops e =
      let P = HasDone false true (if not do_load then 1 else 0) 1 in
      bind_elim P (stoi (get_property props (lit "limit.ops") (lit "0"))) _ e
        λ ops_limit is_limit e₁.
          bind_elim P (count_of props (lit "operationcount")) _ e₁ λ total is_total e₂.
            let limited =
              ltb_ℤ (pos 0) ops_limit
              || not (bytes_eq (get_property props (lit "limit.file") []) []) in
            let each = transaction_threads-each total warmup_ops n do_load limited n 0 in
            let all_of = transaction_threads-all total warmup_ops n do_load limited some_threads in
            record {
              opened = λ i below. omega (arith, (each i below).0);
              closed = λ i below. omega (arith, (each i below).1);
              inserted = omega (arith, all_of.1);
              transacted = (total, is_total, omega (arith, all_of.0));
            }

  -- A stage without threads changes nothing.
  idle-HasDone :
      (loads runs : Bool) (opens closes : ℕ) (s : Stage) (run : MainRun)
      → threads_of s ≡ []
      → HasDone loads runs opens closes run
      → HasDone loads runs opens closes (stage s run)
  idle-HasDone loads runs opens closes s run idle h = record {
    opened = λ i below. rw idle (omega (arith, h.opened i below));
    closed = λ i below. rw idle (omega (arith, h.closed i below));
    inserted = subst (Counted loads props (lit "recordcount")) (rw idle (omega arith)) h.inserted;
    transacted =
        subst (Counted runs props (lit "operationcount")) (rw idle (omega arith)) h.transacted;
  }

  abbrev last_phase : Bool → Bool → ℤ → MainRun
  last_phase do_load do_transaction warmup_ops =
      if do_transaction then run_transactions props n do_load warmup_ops else ends finishes

  last_phase-HasDone :
      (do_load do_transaction : Bool) (warmup_ops : ℤ)
      → ending (last_phase do_load do_transaction warmup_ops) ≡ finishes
      → HasDone false do_transaction
          (if do_transaction && not do_load then 1 else 0)
          (if do_transaction then 1 else 0)
          (last_phase do_load do_transaction warmup_ops)
  last_phase-HasDone do_load true warmup_ops e = run_transactions-HasDone do_load warmup_ops e
  last_phase-HasDone do_load false warmup_ops e = record {
    opened = λ i below. refl;
    closed = λ i below. refl;
    inserted = refl;
    transacted = refl;
  }

  run_load-HasDone :
      (runs : Bool) (rest : MainRun)
      → (ending rest ≡ finishes → HasDone false runs 0 (if runs then 1 else 0) rest)
      → ending (run_load props n runs rest) ≡ finishes
      → HasDone true runs 1 1 (run_load props n runs rest)
  unfolding run_load
  run_load-HasDone runs rest later e =
      bind_elim (HasDone true runs 1 1) (count_of props (lit "recordcount")) _ e
        λ total is_total e₁.
          let h = later e₁ in
          let each = load_threads-each total n runs n 0 in
          let all_of = load_threads-all total n runs some_threads in
          record {
            opened = λ i below. omega (arith, (each i below).0, h.opened i below);
            closed = λ i below. ground (arith, (each i below).1, h.closed i below);
            inserted = (total, is_total, omega (arith, all_of.0, h.inserted));
            transacted =
                subst (Counted runs props (lit "operationcount")) (omega (arith, all_of.1))
                  h.transacted;
          }

  abbrev behind_load : Bool → Bool → ℤ → MainRun
  behind_load do_load do_transaction warmup_ops = stage reset_measurements (
      stoi (get_property props (lit "sleepafterload") (lit "0")) >>= λ seconds.
      stage (sleep_for seconds) (last_phase do_load do_transaction warmup_ops))

  behind_load-HasDone :
      (do_load do_transaction : Bool) (warmup_ops : ℤ)
      → ending (behind_load do_load do_transaction warmup_ops) ≡ finishes
      → HasDone false do_transaction
          (if do_transaction && not do_load then 1 else 0)
          (if do_transaction then 1 else 0)
          (behind_load do_load do_transaction warmup_ops)
  behind_load-HasDone do_load do_transaction warmup_ops e =
      let opens = if do_transaction && not do_load then 1 else 0 in
      let closes = if do_transaction then 1 else 0 in
      let P = HasDone false do_transaction opens closes in
      idle-HasDone false do_transaction opens closes reset_measurements _ refl (
        bind_elim P (stoi (get_property props (lit "sleepafterload") (lit "0"))) _ e
          λ seconds is_seconds e₁.
            idle-HasDone false do_transaction opens closes (sleep_for seconds) _ refl
              (last_phase-HasDone do_load do_transaction warmup_ops e₁))

  both-HasDone :
      (do_load do_transaction : Bool) (warmup_ops : ℤ)
      → (do_load || do_transaction) ≡ true
      → let run =
          if do_load
          then run_load props n do_transaction (behind_load do_load do_transaction warmup_ops)
          else behind_load do_load do_transaction warmup_ops in
        ending run ≡ finishes → HasDone do_load do_transaction 1 1 run
  both-HasDone true true warmup_ops one e =
      run_load-HasDone true _ (behind_load-HasDone true true warmup_ops) e
  both-HasDone true false warmup_ops one e =
      run_load-HasDone false _ (behind_load-HasDone true false warmup_ops) e
  both-HasDone false true warmup_ops one e = behind_load-HasDone false true warmup_ops e
  both-HasDone false false warmup_ops one e = absurd (cc one)

  -- Each database is opened once and closed once, whichever phases are run.
  pub run_phases-HasDone :
      (do_load do_transaction : Bool) (warmup_ops : ℤ)
      → (do_load || do_transaction) ≡ true
      → ending (run_phases props do_load do_transaction n warmup_ops) ≡ finishes
      → HasDone do_load do_transaction 1 1 (run_phases props do_load do_transaction n warmup_ops)
  unfolding run_phases
  run_phases-HasDone do_load do_transaction warmup_ops one e =
      bind_elim (HasDone do_load do_transaction 1 1)
        (stoi (get_property props (lit "status.interval") (lit "10"))) _ e
        λ interval is_interval e₁. both-HasDone do_load do_transaction warmup_ops one e₁

  pub with_target-HasDone :
      (loads runs : Bool) (warmup_ops : ℤ) (run : MainRun)
      → (ending run ≡ finishes → HasDone loads runs 1 1 run)
      → ending (with_target warmup_ops run) ≡ finishes
      → HasDone loads runs 1 1 (with_target warmup_ops run)
  with_target-HasDone loads runs warmup_ops run h e = elim (Bool-cases (ltb_ℤ (pos 0) warmup_ops)) [
    | inl some_warmup ↦ rw some_warmup (
        idle-HasDone loads runs 1 1 (set_warmup_target warmup_ops) run refl
          (h (rw some_warmup at e)))
    | inr no_warmup ↦ rw no_warmup (h (rw no_warmup at e))
  ]
