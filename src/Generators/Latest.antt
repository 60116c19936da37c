-- ===== src/Generators/Latest.antt =====
-- The class SkewedLatestGenerator of core/skewed_latest_generator.h. Its counter is shared with
-- the workload, which passes an AcknowledgedCounterGenerator: what the counter's virtual Last
-- returns is an argument, `max`.
use my_ycsb_cpp.Prelude.{ℕ}
use my_ycsb_cpp.Prelude.Bits.{sub_u64}
use my_ycsb_cpp.Prelude.Float.{Float}
use my_ycsb_cpp.Generators.Zipfian
use my_ycsb_cpp.Generators.Zipfian.{Zipfian}

pub record Latest (fl : Float) : Type 0 where
  pub zipfian : Zipfian fl
  pub last_value : ℕ

module _ (fl : Float) where
  unfoldable pub next : Latest fl → ℕ → fl.F → ℕ × Latest fl
  unfolding Zipfian.next_of
  next g max u =
      let (back, z) = Zipfian.next_of fl g.zipfian max u in
      let value = sub_u64 max back in (value, record { zipfian = z; last_value = value })

  unfoldable pub last : Latest fl → ℕ
  last g = g.last_value

  -- The constructor, which draws twice: once in the inner generator and once in its own Next.
  unfoldable pub new : ℕ → fl.F → fl.F → Latest fl
  unfolding next Zipfian.new_of_items
  new max u1 u2 =
      let fresh : Latest fl = record { zipfian = Zipfian.new_of_items fl max u1; last_value = 0 } in
      (next fresh max u2).1
