-- ===== src/Workload/Transactions/Warmup.antt =====
-- Warmup transactions of a workload without scans.
use my_ycsb_cpp.Prelude.{ℕ, ◌≡◌, refl, ap, ◌∙◌, true, false, none}
use my_ycsb_cpp.Prelude.Int.{pos}
use my_ycsb_cpp.Prelude.Float.{Float}
use my_ycsb_cpp.Generators.Discrete
use my_ycsb_cpp.Generators.Discrete.{DiscreteGenerator}
use my_ycsb_cpp.Measurements.{Operation}
use my_ycsb_cpp.Db.{Database, is_ok}
use my_ycsb_cpp.Workload.Sources.{Sources}
use my_ycsb_cpp.Workload.State.{World, undefined, bind, ◌>>=◌, pure}
use my_ycsb_cpp.Workload.Builders.{new_warmup_op_chooser, add_if}
use my_ycsb_cpp.Workload.Transactions.{do_transaction_in, choose_warmup_op, run_warmup_op}

module _ (fl : Float) (src : Sources fl) (db : Database) where
  next-none :
      (g : DiscreteGenerator fl Operation) (u : fl.F)
      → g ≡ Discrete.new fl Operation
      → (Discrete.next fl g u).0 ≡ none
  next-none g u e = rw e (unfold Discrete.next Discrete.new in refl)

  choose_warmup_op-undefined :
      (w : World fl src db)
      → w.wl.warmup_op_chooser ≡ Discrete.new fl Operation
      → choose_warmup_op fl src db w ≡ undefined
  unfolding choose_warmup_op
  choose_warmup_op-undefined w e =
      rw (next-none w.wl.warmup_op_chooser (src.double w.rnd).0 e, choose_warmup_op) refl

  -- With a scan proportion that is not positive, Init puts nothing into the chooser of the warmup
  -- operations, and every warmup transaction reads an operation that was never written.
  pub warmup_without_scans :
      (w : World fl src db) (fuel : ℕ) (scans : fl.F)
      → w.wl.warmup_op_chooser ≡ new_warmup_op_chooser fl src scans
      → fl.lt (fl.of_int (pos 0)) scans ≡ false
      → do_transaction_in fl src db fuel true w ≡ undefined
  unfolding do_transaction_in
  warmup_without_scans w fuel scans made none_left =
      ap (λ o. bind o λ op. run_warmup_op fl src db fuel op >>= λ s. pure (is_ok s))
        (choose_warmup_op-undefined w (made ∙ shut))
    where
      shut : new_warmup_op_chooser fl src scans ≡ Discrete.new fl Operation
      shut = unfold new_warmup_op_chooser add_if in rw none_left refl
