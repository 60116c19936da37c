-- ===== src/Generators/Scrambled.antt =====
-- The class ScrambledZipfianGenerator of core/scrambled_zipfian_generator.h.
use my_ycsb_cpp.Prelude.{ℕ, ◌+◌, ◌%◌, if◌then◌else◌}
use my_ycsb_cpp.Prelude.Bits.{u64, sub_u64}
use my_ycsb_cpp.Prelude.Float.{Float}
use my_ycsb_cpp.Utils.Hash.{fnv_hash64}
use my_ycsb_cpp.Generators.Zipfian
use my_ycsb_cpp.Generators.Zipfian.{Zipfian}

pub record Scrambled (fl : Float) : Type 0 where
  pub base : ℕ
  pub num_items : ℕ
  pub generator : Zipfian fl

abbrev item_count : ℕ
item_count = 10000000000

-- A remainder by 0 is undefined in C++; it is the dividend here.
unfoldable pub scramble : ℕ → ℕ → ℕ → ℕ
unfolding fnv_hash64
scramble base num_items value = u64 (base + fnv_hash64 value % num_items)

module _ (fl : Float) where
  open fl use {F, dec, eq}

  -- The constructor of three arguments; `u` is the number that the inner generator draws.
  unfoldable pub new : ℕ → ℕ → F → F → Scrambled fl
  new min max zipfian_const u = record {
    base = min;
    num_items = u64 (sub_u64 max min + 1);
    generator =
        if eq zipfian_const (dec 99 2)
        then Zipfian.new_with fl 0 item_count zipfian_const (dec 2646902820178302 14) u
        else Zipfian.new fl 0 item_count zipfian_const u;
  }

  unfoldable pub new_of_range : ℕ → ℕ → F → Scrambled fl
  unfolding new
  new_of_range min max u = new min max (dec 99 2) u

  unfoldable pub new_of_items : ℕ → F → Scrambled fl
  unfolding new_of_range
  new_of_items num_items u = new_of_range 0 (sub_u64 num_items 1) u

  unfoldable pub next : Scrambled fl → F → ℕ × Scrambled fl
  unfolding scramble Zipfian.next
  next g u =
      let (value, z) = Zipfian.next fl g.generator u in
      (scramble g.base g.num_items value, record g { generator = z })

  unfoldable pub last : Scrambled fl → ℕ
  unfolding scramble Zipfian.last
  last g = scramble g.base g.num_items (Zipfian.last fl g.generator)
