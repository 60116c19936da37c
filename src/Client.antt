-- ===== src/Client.antt =====
-- The client threads of core/client.h, as the actions that they take in their order, and the way
-- the main function of core/ycsbc.cc divides the work.
pub mod Split
pub mod Actions
pub mod Barrier
use my_ycsb_cpp.Prelude.{
  ℕ, zero, suc, ◌+◌, Bool, List, [], ◌∷◌, ◌++◌, ltb, ◌==◌, false, if◌then◌else◌,
}
use my_ycsb_cpp.Prelude.Int.{ℤ, pos, negsuc, pos_part, ◌+ℤ◌, ◌-ℤ◌, ◌*ℤ◌, tdiv, ltb_ℤ}

-- What a thread does: an operation on the database, or a call on a latch or the timer.
pub data Action : Type 0 where
  init_db consume do_insert : Action
  do_transaction : Bool → Action  -- in_warmup
  arrive await start_timer : Action  -- warmup_latch, and measurement_timer for the first thread
  cleanup_db finish : Action  -- latch->CountDown()

abbrev pub when : Bool → Action → List Action → List Action
when b a rest = if b then a ∷ rest else rest

-- `i == warmup_ops` and `i < warmup_ops`
abbrev pub at_warmup_end : ℕ → ℤ → Bool
at_warmup_end i (pos n) = i == n
at_warmup_end i (negsuc n) = false

-- The loop of ClientThread, with the rounds left.
unfoldable pub plain_loop : ℕ → Bool → Bool → List Action → List Action
plain_loop zero is_loading limited rest = rest
plain_loop (suc rounds) is_loading limited rest = when limited consume (
    (if is_loading then do_insert else do_transaction false)
    ∷ plain_loop rounds is_loading limited rest)

-- The actions of ClientThread, and the number of operations that it returns.
unfoldable pub client_thread : ℤ → Bool → Bool → Bool → Bool → List Action × ℕ
unfolding plain_loop
client_thread num_ops is_loading init cleanup limited = (
  when init init_db
      (plain_loop (pos_part num_ops) is_loading limited (when cleanup cleanup_db (finish ∷ []))),
  pos_part num_ops,
)

-- The loop of ClientThreadWithWarmup, with the rounds left and `i`.
unfoldable pub warmup_loop : ℕ → ℕ → Bool → Bool → ℤ → List Action → List Action
warmup_loop zero i is_loading limited warmup_ops rest = rest
warmup_loop (suc rounds) i is_loading limited warmup_ops rest =
    let work =
      (if is_loading then do_insert else do_transaction (ltb_ℤ (pos i) warmup_ops))
      ∷ warmup_loop rounds (i + 1) is_loading limited warmup_ops rest in
    when limited consume
      (if at_warmup_end i warmup_ops then arrive ∷ await ∷ start_timer ∷ work else work)

unfoldable pub client_thread_with_warmup : ℤ → Bool → Bool → Bool → ℤ → Bool → List Action × ℕ
unfolding warmup_loop
client_thread_with_warmup num_ops is_loading init cleanup warmup_ops limited = (
  when init init_db (
      warmup_loop (pos_part num_ops) 0 is_loading limited warmup_ops
        (when cleanup cleanup_db (finish ∷ []))),
  pos_part num_ops,
)

-- The share of thread `i`: `total / threads`, and one more if `i < total % threads`.
unfoldable pub share : ℤ → ℕ → ℕ → ℤ
unfolding tdiv ◌*ℤ◌ ◌-ℤ◌ ◌+ℤ◌
share total threads i =
    let quotient = tdiv total threads in
    if ltb_ℤ (pos i) (total -ℤ quotient *ℤ pos threads) then quotient +ℤ pos 1 else quotient
