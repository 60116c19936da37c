-- ===== src/Measurements/Overlap.antt =====
-- BasicMeasurements::Report of core/measurements.cc when threads overlap: each access of an atomic
-- is a step, and the counters are those of one operation.
pub mod Steps
pub mod Settled
pub mod Returns
use my_ycsb_cpp.Prelude.{
  ℕ, zero, suc, ◌+◌, Bool, true, false, not, List, [], ◌∷◌, ◌==◌, ltb, ◌&&◌, if◌then◌else◌, length,
  All, ◌≡◌,
}
use my_ycsb_cpp.Prelude.Bits.{u64, u32}

pub record Counters : Type 0 where
  pub count : ℕ
  pub sum : ℕ
  pub min : ℕ
  pub max : ℕ

-- Where a call of Report is; behind a load or a failed exchange it holds what it read.
pub data Place : Type 0 where
  at_count at_sum at_min : Place
  swap_min : ℕ → Place
  at_max : Place
  swap_max : ℕ → Place
  returned : Place

-- The next access of a call that reports `latency`. A weak exchange may fail though the value is
-- the expected one (`fails`); a failed exchange reads the value.
unfoldable pub advance : Bool → ℕ → Counters → Place → Counters × Place
advance fails latency c at_count = (record c { count = u32 (c.count + 1) }, at_sum)
advance fails latency c at_sum = (record c { sum = u64 (c.sum + latency) }, at_min)
advance fails latency c at_min = (c, swap_min c.min)
advance fails latency c (swap_min prev) =
    if ltb latency prev
    then (if (c.min == prev) && not fails
        then (record c { min = latency }, at_max)
        else (c, swap_min c.min))
    else (c, at_max)
advance fails latency c at_max = (c, swap_max c.max)
advance fails latency c (swap_max prev) =
    if ltb prev latency
    then (if (c.max == prev) && not fails
        then (record c { max = latency }, returned)
        else (c, swap_max c.max))
    else (c, returned)
advance fails latency c returned = (c, returned)

-- The calls under way, each with its latency and its place.
abbrev pub Calls : Type 0
Calls = List (ℕ × Place)

-- A step of call number k; none if there is no such call.
unfoldable pub advance_at : ℕ → Bool → Counters → Calls → Counters × Calls
unfolding advance
advance_at k fails c [] = (c, [])
advance_at zero fails c ((latency, place) ∷ calls) =
    let (c', place') = advance fails latency c place in (c', (latency, place') ∷ calls)
advance_at (suc k) fails c (call ∷ calls) =
    let (c', calls') = advance_at k fails c calls in (c', call ∷ calls')

-- The steps of a schedule, which names the call of each step.
unfoldable pub run : List (ℕ × Bool) → Counters → Calls → Counters × Calls
unfolding advance_at
run [] c calls = (c, calls)
run ((k, fails) ∷ schedule) c calls =
    let (c', calls') = advance_at k fails c calls in run schedule c' calls'

abbrev pub begin : List ℕ → Calls
begin [] = []
begin (latency ∷ latencies) = (latency, at_count) ∷ begin latencies

abbrev pub HaveReturned : Calls → Type 0
HaveReturned = All (λ (call : ℕ × Place). call.1 ≡ returned)
