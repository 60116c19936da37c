-- ===== src/Utils/CountdownLatch.antt =====
-- The class CountDownLatch of utils/countdown_latch.h. Each method runs under the mutex, so it is
-- one step; `await` says whether a waiter that holds the mutex goes on.
use my_ycsb_cpp.Prelude.{Bool, not}
use my_ycsb_cpp.Prelude.Int.{ℤ, pos, ltb_ℤ, ◌-ℤ◌}

pub record CountDownLatch : Type 0 where
  pub count : ℤ

unfoldable pub new : ℤ → CountDownLatch
new count = record { count = count }

-- The condition of Await and AwaitFor, `count_ <= 0`.
unfoldable pub is_open : CountDownLatch → Bool
is_open l = not (ltb_ℤ (pos 0) l.count)

-- The latch after CountDown, and whether it woke the waiters.
unfoldable pub count_down : CountDownLatch → CountDownLatch × Bool
unfolding ◌-ℤ◌ is_open
count_down l = let l' : CountDownLatch = record { count = l.count -ℤ pos 1 } in (l', is_open l')
