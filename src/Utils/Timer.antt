-- ===== src/Utils/Timer.antt =====
-- The class Timer of utils/timer.h with whole counts, and the clock as an argument.
use my_ycsb_cpp.Prelude.{ℕ}
use my_ycsb_cpp.Prelude.Bits.{sub_u64}

pub record Timer : Type 0 where
  pub time : ℕ

-- Start, at the clock's reading `now`
unfoldable pub start : ℕ → Timer
start now = record { time = now }

-- End: the count since Start, as a uint64_t.
unfoldable pub end : Timer → ℕ → ℕ
end t now = sub_u64 now t.time
