-- ===== src/Tests/Mains.antt =====
-- A run of main that loads three records and does four operations, on two threads, and files of
-- rates.
use my_ycsb_cpp.Prelude.{ℕ, ◌≡◌, refl, Bool, true, false, List, [], ◌∷◌, arith}
use my_ycsb_cpp.Prelude.Bytes.{Bytes, lit}
use my_ycsb_cpp.Prelude.Int.{pos, ◌-ℤ◌}
use my_ycsb_cpp.Prelude.Outcome.{done, undefined}
use my_ycsb_cpp.Driver.RateFile.{await_for, set_rates, rate_limit_thread}
use my_ycsb_cpp.Driver.RateFile.Schedules.{rate_text, schedule, never, rate_limit_thread-schedule}
use my_ycsb_cpp.Utils.Properties.{Properties, get_property}
use my_ycsb_cpp.Utils.Text.Numbers.{stoi}
use my_ycsb_cpp.Driver.Main.{finishes, run_main, is_set}
use my_ycsb_cpp.Driver.Main.Tally.{ending, HasDone}
use my_ycsb_cpp.Driver.Main.Sessions.{run_main-HasDone}
use my_ycsb_cpp.Tests.Toys.{whole, counting}

abbrev two_threads : Properties
two_threads =
    (lit "doload", lit "true")
    ∷ (lit "dotransaction", lit "true")
    ∷ (lit "threadcount", lit "2")
    ∷ (lit "recordcount", lit "3")
    ∷ (lit "operationcount", lit "4")
    ∷ []

abbrev only_basic : List (Bytes × Bool)
only_basic = (lit "basic", true) ∷ []

run_finishes : ending (run_main whole counting only_basic false two_threads 0) ≡ finishes
unfolding run_main ◌-ℤ◌
run_finishes = refl

run_main-HasDone_example :
    HasDone two_threads 2
      (omega arith)
      true
      true
      1
      1
      (run_main whole counting only_basic false two_threads 0)
unfolding stoi get_property is_set
run_main-HasDone_example =
    run_main-HasDone whole counting only_basic false two_threads 0 2 (omega arith) refl run_finishes

-- Ten operations a second from the second second on, and twenty from the fifth.
abbrev rates : List (ℕ × ℕ)
rates = (5, 20) ∷ []

rate_limit_thread-schedule_example :
    (rate_limit_thread never 2 true (rate_text (2, 10) rates [])
      ≡ done (schedule 2 0 ((2, 10) ∷ rates)))
    × (rate_limit_thread never 2 true (rate_text (2, 10) rates (10 ∷ [])) ≡ undefined)
rate_limit_thread-schedule_example =
    rate_limit_thread-schedule 2 (2, 10) rates
      ((omega arith, omega arith), ((omega arith, omega arith), tt))

two_rates :
    rate_limit_thread never 2 true (lit "2 10\n5 20")
    ≡ done (await_for (pos 2) ∷ set_rates (pos 5) ∷ await_for (pos 3) ∷ set_rates (pos 10) ∷ [])
unfolding rate_limit_thread
two_rates = refl
