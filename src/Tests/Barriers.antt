-- ===== src/Tests/Barriers.antt =====
-- The client threads at concrete counts: a phase that ends, and one that does not.
use my_ycsb_cpp.Prelude.{ℕ, zero, suc, ◌+◌, ◌≤◌, ◌<◌, ◌≡◌, refl, true, false, [], ◌∷◌, arith, ◌⊎◌}
use my_ycsb_cpp.Prelude.Int.{pos, pos_part}
use my_ycsb_cpp.Utils.CountdownLatch.{is_open}
use my_ycsb_cpp.Client.{
  share, client_thread_with_warmup, do_transaction, arrive, await, start_timer, cleanup_db, finish,
}
use my_ycsb_cpp.Client.Actions.{waits}
use my_ycsb_cpp.Client.Barrier.{System, Step, here, left, transaction_phase}
use my_ycsb_cpp.Client.Barrier.Progress.{IsDone, every}
use my_ycsb_cpp.Client.Barrier.Phase.{Passes, transaction_phase_ends, transaction_phase_deadlocks}

-- Three operations, one of them in warmup, after a load phase.
three_operations : client_thread_with_warmup (pos 3) false false true (pos 1) false ≡ (
  do_transaction true
      ∷ arrive
      ∷ await
      ∷ start_timer
      ∷ do_transaction false
      ∷ do_transaction false
      ∷ cleanup_db
      ∷ finish
      ∷ [],
  3,
)
unfolding client_thread_with_warmup
three_operations = refl

-- Four operations and a warmup of two, on two threads.
four_two_pass : (i : ℕ) → i < 2 → Passes 4 2 2 i
unfolding share
four_two_pass zero h = omega arith
four_two_pass (suc zero) h = omega arith
four_two_pass (suc (suc i)) h = absurd (omega arith)

abbrev pub four_two : System
four_two = transaction_phase (pos 4) (pos 2) 2 true false

transaction_phase_ends_example :
    (IsDone four_two.threads ⊎ ((u : System) × Step four_two u))
    × ((u : System) → Step four_two u → left every four_two.threads ≡ left every u.threads + 1)
transaction_phase_ends_example =
    transaction_phase_ends 4 2 2 true false (omega arith) four_two_pass four_two here

-- Three operations and a warmup of two, on two threads: the second thread has one operation, and it
-- is a warmup.
abbrev pub three_two : System
three_two = transaction_phase (pos 3) (pos 2) 2 true false

second_is_warmup : pos_part (share (pos 3) 2 1) ≤ pos_part (share (pos 2) 2 1)
unfolding share
second_is_warmup = omega arith

transaction_phase_deadlocks_example :
    (is_open three_two.warmup_latch ≡ false)
    × (left waits three_two.threads ≡ left waits three_two.threads)
transaction_phase_deadlocks_example =
    transaction_phase_deadlocks 3 2 2 true false (omega arith) 1 (omega arith) second_is_warmup
      three_two here

one_waits : left waits three_two.threads ≡ 1
unfolding transaction_phase
one_waits = refl
