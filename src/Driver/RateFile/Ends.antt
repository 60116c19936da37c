-- ===== src/Driver/RateFile/Ends.antt =====
-- RateLimitThread ends on every file.
use my_ycsb_cpp.Prelude.{ℕ, ◌+◌, ◌≢◌, length, if◌then◌else◌}
use my_ycsb_cpp.Prelude.Bytes.{Bytes}
use my_ycsb_cpp.Prelude.Outcome.{Outcome, stuck}
use my_ycsb_cpp.Driver.RateFile.{Stream}

-- How many reads a stream can still serve, at most.
abbrev weight : Stream → ℕ
weight ifs = if ifs.fail then 1 else 2 + length ifs.bytes

abbrev pub IsOver : {A : Type 0} → Outcome A → Type 0
IsOver m = m ≢ stuck
