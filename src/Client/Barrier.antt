-- ===== src/Client/Barrier.antt =====
-- The threads of the transaction phase of core/ycsbc.cc together, with the latch of the warmup
-- that they share: one action of one thread at a time, in any order.
pub mod Deadlock
pub mod Progress
pub mod Phase
use my_ycsb_cpp.Prelude.{ℕ, zero, suc, ◌+◌, ◌≡◌, Bool, true, false, not, List, [], ◌∷◌, ◌++◌}
use my_ycsb_cpp.Prelude.Int.{ℤ, pos}
use my_ycsb_cpp.Utils.CountdownLatch
use my_ycsb_cpp.Utils.CountdownLatch.{CountDownLatch, is_open, count_down}
use my_ycsb_cpp.Client.{Action, arrive, await, client_thread_with_warmup, share}
use my_ycsb_cpp.Client.Actions.{count}

pub record System : Type 0 where
  pub threads : List (List Action)
  pub warmup_latch : CountDownLatch

-- What an action needs of the latch and makes of it: a thread at Await goes on when it is open.
abbrev pub Runs : Action → CountDownLatch → CountDownLatch → Type 0
Runs arrive l l' = l' ≡ (count_down l).0
Runs await l l' = (is_open l ≡ true) × (l' ≡ l)
Runs _ l l' = l' ≡ l

pub data Step : System → System → Type 0 where
  step :
      (front back : List (List Action)) (a : Action) (rest : List Action) (l l' : CountDownLatch)
      → Runs a l l'
      → Step
          (record { threads = front ++ (a ∷ rest) ∷ back; warmup_latch = l })
          (record { threads = front ++ rest ∷ back; warmup_latch = l' })

pub data Reaches : System → System → Type 0 where
  here : {s : System} → Reaches s s
  onward : {s t u : System} → Reaches s t → Step t u → Reaches s u

-- How often a kind of action is left in all threads.
abbrev pub left : (Action → ℕ) → List (List Action) → ℕ
left f [] = 0
left f (thread ∷ threads) = count f thread + left f threads

-- The threads that the transaction phase starts, from number `i` on, with the rounds left. They
-- initialise the database if no load phase has done so.
unfoldable pub transaction_threads : ℤ → ℤ → ℕ → Bool → Bool → ℕ → ℕ → List (List Action)
unfolding client_thread_with_warmup share
transaction_threads total_ops warmup_ops num_threads do_load limited zero i = []
transaction_threads total_ops warmup_ops num_threads do_load limited (suc rounds) i =
    (client_thread_with_warmup (share total_ops num_threads i) false (not do_load) true
      (share warmup_ops num_threads i) limited).0
    ∷ transaction_threads total_ops warmup_ops num_threads do_load limited rounds (i + 1)

-- The threads and the latch of the warmup at the start.
unfoldable pub transaction_phase : ℤ → ℤ → ℕ → Bool → Bool → System
unfolding transaction_threads CountdownLatch.new
transaction_phase total_ops warmup_ops num_threads do_load limited = record {
  threads = transaction_threads total_ops warmup_ops num_threads do_load limited num_threads 0;
  warmup_latch = CountdownLatch.new (pos num_threads);
}
