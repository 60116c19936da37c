-- ===== src/Generators/Counter.antt =====
-- The classes ConstGenerator and CounterGenerator of core/const_generator.h and
-- core/counter_generator.h. The counter is a uint64_t, and fetch_add is one step.
use my_ycsb_cpp.Prelude.{ℕ, ◌+◌}
use my_ycsb_cpp.Prelude.Bits.{u64, sub_u64}

pub record ConstGenerator : Type 0 where
  pub constant : ℕ

unfoldable pub const_next : ConstGenerator → ℕ × ConstGenerator
const_next g = (g.constant, g)

unfoldable pub const_last : ConstGenerator → ℕ
const_last g = g.constant

pub record CounterGenerator : Type 0 where
  pub counter : ℕ

unfoldable pub new : ℕ → CounterGenerator
new start = record { counter = start }

unfoldable pub next : CounterGenerator → ℕ × CounterGenerator
next g = (g.counter, record { counter = u64 (g.counter + 1) })

unfoldable pub last : CounterGenerator → ℕ
last g = sub_u64 g.counter 1
