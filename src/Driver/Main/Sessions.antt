-- ===== src/Driver/Main/Sessions.antt =====
-- What a run of main that ends normally has done with the databases.
use my_ycsb_cpp.Prelude.{
  ℕ, ◌<◌, ◌≡◌, refl, sym, ◌∙◌, subst, Bool, true, false, not, ◌&&◌, ◌||◌, List, Option, none, some,
  Bool-cases, inl, inr, if◌then◌else◌,
}
use my_ycsb_cpp.Prelude.Int.{ℤ, pos}
use my_ycsb_cpp.Prelude.Bytes.{Bytes, lit}
use my_ycsb_cpp.Prelude.Float.{Float}
use my_ycsb_cpp.Prelude.Result.{ok, ok_injective}
use my_ycsb_cpp.Utils.Text.Numbers.{stoi}
use my_ycsb_cpp.Utils.Properties.{Properties, get_property, at}
use my_ycsb_cpp.Workload.Sources.{Sources}
use my_ycsb_cpp.Workload.Config
use my_ycsb_cpp.Measurements.{create_measurements}
use my_ycsb_cpp.Driver.Main.{
  finishes, exits_with, MainRun, ends, is_set, creates_all, warmup_of, with_measurements, run_made,
  run_measured, run_threads, run_main,
}
use my_ycsb_cpp.Driver.Main.Tally.{
  ending, bind_elim, HasDone, run_phases-HasDone, with_target-HasDone,
}

module _ (fl : Float) (src : Sources fl) {Creator : Type 0}
    (registry : List (Bytes × Creator)) where
  run_made-HasDone :
      (props : Properties) (n : ℕ) (some_threads : 0 < n) (do_load do_transaction : Bool)
      (warmup_ops : ℤ)
      → (do_load || do_transaction) ≡ true
      → let run = run_made fl src registry props do_load do_transaction n warmup_ops in
        ending run ≡ finishes → HasDone props n some_threads do_load do_transaction 1 1 run
  unfolding run_made
  run_made-HasDone props n some_threads do_load do_transaction warmup_ops one e =
      elim (Bool-cases (creates_all registry props n warmup_ops)) [
        | inl made ↦ rw made (
            with_target-HasDone props n some_threads do_load do_transaction warmup_ops _
              (run_phases-HasDone props n some_threads do_load do_transaction warmup_ops one)
              (rw made at e))
        | inr refused ↦ rw refused (
            bind_elim (HasDone props n some_threads do_load do_transaction 1 1)
              (at props (lit "dbname")) _ (rw refused at e) λ name is_name e₁. absurd (cc e₁))
      ]

  run_measured-HasDone :
      (props : Properties) (n : ℕ) (some_threads : 0 < n) (do_load do_transaction : Bool)
      (r : src.R)
      → (do_load || do_transaction) ≡ true
      → let run = run_measured fl src registry props do_load do_transaction (pos n) r in
        ending run ≡ finishes → HasDone props n some_threads do_load do_transaction 1 1 run
  unfolding run_measured
  run_measured-HasDone props n some_threads do_load do_transaction r one e =
      let P = HasDone props n some_threads do_load do_transaction 1 1 in
      bind_elim P (Config.init fl src props r) _ e λ wl is_wl e₁.
        bind_elim P (warmup_of fl props do_transaction wl.0.warmup_ratio) _ e₁ λ warmup_ops is_w e₂.
          run_made-HasDone props n some_threads do_load do_transaction warmup_ops one e₂

  with_measurements-HasDone :
      {Kind : Type 0} (kind : Option Kind) (P : MainRun → Type 0) (rest : MainRun)
      → (ending rest ≡ finishes → P rest)
      → ending (with_measurements kind rest) ≡ finishes
      → P (with_measurements kind rest)
  with_measurements-HasDone none P rest h e = absurd (cc e)
  with_measurements-HasDone (some kind) P rest h e = h e

  run_threads-HasDone :
      (hdr : Bool) (props : Properties) (n : ℕ) (some_threads : 0 < n)
      (do_load do_transaction : Bool) (r : src.R)
      → (do_load || do_transaction) ≡ true
      → stoi (get_property props (lit "threadcount") (lit "1")) ≡ ok (pos n)
      → let run = run_threads fl src registry hdr props do_load do_transaction r in
        ending run ≡ finishes → HasDone props n some_threads do_load do_transaction 1 1 run
  unfolding run_threads
  run_threads-HasDone hdr props n some_threads do_load do_transaction r one is_n e =
      let P = HasDone props n some_threads do_load do_transaction 1 1 in
      let f = λ (k : ℤ).
        with_measurements (create_measurements hdr props)
          (run_measured fl src registry props do_load do_transaction k r) in
      bind_elim P (stoi (get_property props (lit "threadcount") (lit "1"))) f e λ k is_k e₁.
        subst (λ k'. ending (f k') ≡ finishes → P (f k')) (ok_injective (λ x. x) (sym is_n ∙ is_k))
          (with_measurements-HasDone (create_measurements hdr props) P _
            (run_measured-HasDone props n some_threads do_load do_transaction r one))
          e₁

  -- Behind an exit, where the program goes on.
  unless_exits :
      (code : ℕ) (message : Bytes) (exits : Bool) (P : MainRun → Type 0) (run : MainRun)
      → (exits ≡ false → ending run ≡ finishes → P run)
      → ending (if exits then ends (exits_with code message) else run) ≡ finishes
      → P (if exits then ends (exits_with code message) else run)
  unless_exits code message true P run h e = absurd (cc e)
  unless_exits code message false P run h e = h refl e

  one_of : (a b : Bool) → (not a && not b) ≡ false → (a || b) ≡ true
  one_of true b e = refl
  one_of false true e = refl
  one_of false false e = absurd (cc e)

  -- A run of main that ends normally with some threads has opened the database of each thread once
  -- and closed it once, over both phases; it has done `recordcount` inserts if it was to load and
  -- none else, and `operationcount` transactions if it was to run them and none else.
  pub run_main-HasDone :
      (hdr : Bool) (props : Properties) (r : src.R) (n : ℕ) (some_threads : 0 < n)
      → stoi (get_property props (lit "threadcount") (lit "1")) ≡ ok (pos n)
      → ending (run_main fl src registry hdr props r) ≡ finishes
      → HasDone props n some_threads
          (is_set props (lit "doload"))
          (is_set props (lit "dotransaction"))
          1
          1
          (run_main fl src registry hdr props r)
  unfolding run_main
  run_main-HasDone hdr props r n some_threads is_n e =
      let loads = is_set props (lit "doload") in
      let runs = is_set props (lit "dotransaction") in
      unless_exits 1 (lit "No operation to do") (not loads && not runs)
        (HasDone props n some_threads loads runs 1 1) _
        (λ busy.
          run_threads-HasDone hdr props n some_threads loads runs r (one_of loads runs busy) is_n)
        e
