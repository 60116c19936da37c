-- ===== src/Client/Barrier/Phase.antt =====
-- Which transaction phases pass their barrier.
use my_ycsb_cpp.Prelude.{
  ℕ, zero, suc, ◌+◌, ◌≤◌, ◌<◌, ◌≡◌, refl, ap, sym, Bool, true, false, not, List, [], ◌∷◌, arith,
  All, ltb, if◌then◌else◌, Bool-cases, inl, inr, ◌==◌, ◌⊎◌,
}
use my_ycsb_cpp.Prelude.Int.{pos, pos_part}
use my_ycsb_cpp.Utils.CountdownLatch
use my_ycsb_cpp.Utils.CountdownLatch.{is_open}
use my_ycsb_cpp.Client.{
  Action, consume, when, finish, cleanup_db, warmup_loop, client_thread_with_warmup, share,
}
use my_ycsb_cpp.Client.Split.{plain_share, share-pos}
use my_ycsb_cpp.Client.Actions.{
  count, arrivals, waits, client_thread_with_warmup_lem, count-warmup_loop,
}
use my_ycsb_cpp.Client.Barrier.{System, left, Reaches, Step, transaction_threads, transaction_phase}
use my_ycsb_cpp.Client.Barrier.Deadlock.{IsShort, Reaches-deadlock}
use my_ycsb_cpp.Client.Barrier.Progress.{IsFair, IsOrdered, IsDone, every, Reaches-progress}

-- The warmup share of thread `i` is below its share of the operations.
abbrev pub Passes : ℕ → ℕ → ℕ → ℕ → Type 0
Passes total w threads i =
    pos_part (share (pos w) threads i) < pos_part (share (pos total) threads i)

when-IsOrdered : (b : Bool) (rest : List Action) → IsOrdered rest → IsOrdered (when b consume rest)
when-IsOrdered true rest h = h
when-IsOrdered false rest h = h

warmup_loop-IsOrdered :
    (rounds i w : ℕ) (limited : Bool) (rest : List Action)
    → IsOrdered rest
    → count arrivals rest ≡ 0
    → IsOrdered (warmup_loop rounds i false limited (pos w) rest)
unfolding warmup_loop
warmup_loop-IsOrdered zero i w limited rest o none_left = o
warmup_loop-IsOrdered (suc rounds) i w limited rest o none_left =
    let later = warmup_loop-IsOrdered rounds (i + 1) w limited rest o none_left in
    let counts = count-warmup_loop rounds (i + 1) w limited rest in
    when-IsOrdered limited _ (elim (Bool-cases (i == w)) [
      | inl same ↦ rw same (ground (arith, counts, none_left), later)
      | inr other ↦ rw other later
    ])

thread-IsOrdered :
    (n w : ℕ) (init limited : Bool)
    → IsOrdered (client_thread_with_warmup (pos n) false init true (pos w) limited).0
unfolding client_thread_with_warmup
thread-IsOrdered n w true limited =
    warmup_loop-IsOrdered n 0 w limited (cleanup_db ∷ finish ∷ []) tt refl
thread-IsOrdered n w false limited =
    warmup_loop-IsOrdered n 0 w limited (cleanup_db ∷ finish ∷ []) tt refl

module _ (total w threads : ℕ) (do_load limited : Bool) (some : 0 < threads) where
  abbrev started : ℕ → ℕ → List (List Action)
  started = transaction_threads (pos total) (pos w) threads do_load limited

  thread-arrivals :
      (i : ℕ)
      → let run =
          client_thread_with_warmup
            (share (pos total) threads i)
            false
            (not do_load)
            true
            (share (pos w) threads i)
            limited in
        IsOrdered run.0
        × (count arrivals run.0 ≡ (
            if ltb (pos_part (share (pos w) threads i)) (pos_part (share (pos total) threads i))
            then 1
            else 0))
  thread-arrivals i =
      rw (share-pos total threads i some, share-pos w threads i some)
        (
          thread-IsOrdered (plain_share total threads i) (plain_share w threads i) (not do_load)
              limited,
          (client_thread_with_warmup_lem (plain_share total threads i) (plain_share w threads i)
              (not do_load) true limited).3,
        )

  started-IsOrdered : (rounds i : ℕ) → All IsOrdered (started rounds i)
  unfolding transaction_threads
  started-IsOrdered zero i = tt
  started-IsOrdered (suc rounds) i = ((thread-arrivals i).0, started-IsOrdered rounds (i + 1))

  started-all :
      (rounds i : ℕ)
      → ((j : ℕ) → i ≤ j → j < i + rounds → Passes total w threads j)
      → left arrivals (started rounds i) ≡ rounds
  unfolding transaction_threads
  started-all zero i pass = refl
  started-all (suc rounds) i pass = ground (
    arith,
    (thread-arrivals i).1,
    pass i (omega arith) (omega arith),
    started-all rounds (i + 1) (λ j lo hi. pass j (omega arith) (omega arith)),
  )

  started-most : (rounds i : ℕ) → left arrivals (started rounds i) ≤ rounds
  unfolding transaction_threads
  started-most zero i = omega arith
  started-most (suc rounds) i = ground (arith, (thread-arrivals i).1, started-most rounds (i + 1))

  started-short :
      (rounds i j : ℕ)
      → i ≤ j
      → j < i + rounds
      → pos_part (share (pos total) threads j) ≤ pos_part (share (pos w) threads j)
      → left arrivals (started rounds i) < rounds
  unfolding transaction_threads
  started-short zero i j lo hi late = absurd (omega arith)
  started-short (suc rounds) i j lo hi late = elim (Bool-cases (i == j)) [
    | inl same ↦
        let here_now : i ≡ j = ground (arith, same) in
        ground (arith, (thread-arrivals i).1, rw (← here_now) at late, started-most rounds (i + 1))
    | inr other ↦ ground (
      arith,
      (thread-arrivals i).1,
      started-short rounds (i + 1) j (ground (arith, other)) (omega arith) late,
    )
  ]

  transaction_phase-IsFair :
      ((i : ℕ) → i < threads → Passes total w threads i)
      → IsFair (transaction_phase (pos total) (pos w) threads do_load limited)
  unfolding transaction_phase CountdownLatch.new
  transaction_phase-IsFair pass = record {
    is_count = ap pos (sym (started-all threads 0 (λ j lo hi. pass j (omega arith))));
    ordered = started-IsOrdered threads 0;
  }

  transaction_phase-IsShort :
      (i : ℕ)
      → i < threads
      → pos_part (share (pos total) threads i) ≤ pos_part (share (pos w) threads i)
      → IsShort (transaction_phase (pos total) (pos w) threads do_load limited)
  unfolding transaction_phase CountdownLatch.new
  transaction_phase-IsShort i less late = record {
    counter = threads;
    is_count = refl;
    short = started-short threads 0 i (omega arith) (omega arith) late;
  }

  -- If every thread's share of the warmup is below its share of the operations, then in every state
  -- that the threads of the transaction phase reach, in any order of their actions, all of them are
  -- done or some thread can go on, and each action leaves one fewer, so that the phase ends.
  pub transaction_phase_ends :
      ((i : ℕ) → i < threads → Passes total w threads i)
      → (t : System) → Reaches (transaction_phase (pos total) (pos w) threads do_load limited) t
      → (IsDone t.threads ⊎ ((u : System) × Step t u))
        × ((u : System) → Step t u → left every t.threads ≡ left every u.threads + 1)
  transaction_phase_ends pass t r = Reaches-progress _ t (transaction_phase-IsFair pass) r

  -- If one thread's share of the warmup is all its operations or more, the latch of the warmup
  -- opens in no order of the actions, and every thread that comes to it waits for ever.
  pub transaction_phase_deadlocks :
      (i : ℕ)
      → i < threads
      → pos_part (share (pos total) threads i) ≤ pos_part (share (pos w) threads i)
      → (t : System) → Reaches (transaction_phase (pos total) (pos w) threads do_load limited) t
      → (is_open t.warmup_latch ≡ false)
        × (left waits t.threads
            ≡ left waits (transaction_phase (pos total) (pos w) threads do_load limited).threads)
  transaction_phase_deadlocks i less late t r =
      Reaches-deadlock _ t (transaction_phase-IsShort i less late) r
