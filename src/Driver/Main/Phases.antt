-- ===== src/Driver/Main/Phases.antt =====
-- What the threads of the load phase and of the transaction phase do.
use my_ycsb_cpp.Prelude.{
  ℕ, zero, suc, ◌+◌, ◌<◌, ◌≡◌, refl, ap, Bool, not, List, [], ◌∷◌, arith, if◌then◌else◌,
}
use my_ycsb_cpp.Prelude.Int.{ℤ, pos_part}
use my_ycsb_cpp.Client.{Action, share}
use my_ycsb_cpp.Client.Actions.{
  count, inits, cleanups, inserts, transactions, count-load_thread, count-transaction_thread,
}
use my_ycsb_cpp.Client.Split.{shares, shares_all, shares_next}
use my_ycsb_cpp.Client.Barrier.{left, transaction_threads}
use my_ycsb_cpp.Driver.Main.{load_threads}

-- The actions of thread `i`.
abbrev pub thread : List (List Action) → ℕ → List Action
thread [] i = []
thread (actions ∷ threads) zero = actions
thread (actions ∷ threads) (suc i) = thread threads i

pub load_threads-each :
    (total : ℤ) (n : ℕ) (then_runs : Bool) (rounds j i : ℕ)
    → i < rounds
    → let actions = thread (load_threads total n then_runs rounds j) i in
      (count inits actions ≡ 1) × (count cleanups actions ≡ (if not then_runs then 1 else 0))
unfolding load_threads
load_threads-each total n then_runs zero j i below = absurd (omega arith)
load_threads-each total n then_runs (suc rounds) j zero below =
    let h = count-load_thread (share total n j) (not then_runs) in (h.0, h.1)
load_threads-each total n then_runs (suc rounds) j (suc i) below =
    load_threads-each total n then_runs rounds (j + 1) i (omega arith)

load_threads-inserts :
    (total : ℤ) (n : ℕ) (then_runs : Bool) (rounds j k : ℕ)
    → j + rounds ≡ k
    → (left inserts (load_threads total n then_runs rounds j) + shares total n j ≡ shares total n k)
      × (left transactions (load_threads total n then_runs rounds j) ≡ 0)
unfolding load_threads
load_threads-inserts total n then_runs zero j k e =
    let here : j ≡ k = omega (arith, e) in (omega (arith, ap (shares total n) here), refl)
load_threads-inserts total n then_runs (suc rounds) j k e =
    let ih = load_threads-inserts total n then_runs rounds (j + 1) k (omega (arith, e)) in
    let h = count-load_thread (share total n j) (not then_runs) in
    (omega (arith, ih, h, shares_next total n j), omega (arith, ih, h))

-- The load phase as a whole.
pub load_threads-all :
    (total : ℤ) (n : ℕ) (then_runs : Bool)
    → 0 < n
    → (left inserts (load_threads total n then_runs n 0) ≡ pos_part total)
      × (left transactions (load_threads total n then_runs n 0) ≡ 0)
load_threads-all total n then_runs some =
    let h = load_threads-inserts total n then_runs n 0 n (omega arith) in
    (omega (arith, h, shares_all total n some), h.1)

pub transaction_threads-each :
    (total w : ℤ) (n : ℕ) (do_load limited : Bool) (rounds j i : ℕ)
    → i < rounds
    → let actions = thread (transaction_threads total w n do_load limited rounds j) i in
      (count inits actions ≡ (if not do_load then 1 else 0)) × (count cleanups actions ≡ 1)
unfolding transaction_threads
transaction_threads-each total w n do_load limited zero j i below = absurd (omega arith)
transaction_threads-each total w n do_load limited (suc rounds) j zero below =
    let h = count-transaction_thread (share total n j) (share w n j) (not do_load) limited in
    (h.0, h.1)
transaction_threads-each total w n do_load limited (suc rounds) j (suc i) below =
    transaction_threads-each total w n do_load limited rounds (j + 1) i (omega arith)

transaction_threads-transactions :
    (total w : ℤ) (n : ℕ) (do_load limited : Bool) (rounds j k : ℕ)
    → j + rounds ≡ k
    → (left transactions (transaction_threads total w n do_load limited rounds j) + shares total n j
        ≡ shares total n k)
      × (left inserts (transaction_threads total w n do_load limited rounds j) ≡ 0)
unfolding transaction_threads
transaction_threads-transactions total w n do_load limited zero j k e =
    let here : j ≡ k = omega (arith, e) in (omega (arith, ap (shares total n) here), refl)
transaction_threads-transactions total w n do_load limited (suc rounds) j k e =
    let ih =
      transaction_threads-transactions total w n do_load limited rounds (j + 1) k
        (omega (arith, e)) in
    let h = count-transaction_thread (share total n j) (share w n j) (not do_load) limited in
    (omega (arith, ih, h, shares_next total n j), omega (arith, ih, h))

-- The transaction phase as a whole.
pub transaction_threads-all :
    (total w : ℤ) (n : ℕ) (do_load limited : Bool)
    → 0 < n
    → (left transactions (transaction_threads total w n do_load limited n 0) ≡ pos_part total)
      × (left inserts (transaction_threads total w n do_load limited n 0) ≡ 0)
transaction_threads-all total w n do_load limited some =
    let h = transaction_threads-transactions total w n do_load limited n 0 n (omega arith) in
    (omega (arith, h, shares_all total n some), h.1)
