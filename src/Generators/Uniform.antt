-- ===== src/Generators/Uniform.antt =====
-- The class UniformGenerator of core/uniform_generator.h. The engine and the distribution are the
-- standard library's: the state of the engine is a type, and one draw is a function.
use my_ycsb_cpp.Prelude.{ℕ}

-- The state after construction holds the first draw.
pub record Uniform (E : Type 0) : Type 0 where
  pub generator : E
  pub min : ℕ
  pub max : ℕ
  pub last_int : ℕ

module _ {E : Type 0} (dist : E → ℕ → ℕ → ℕ × E) where
  unfoldable pub next : Uniform E → ℕ × Uniform E
  next g =
      let (value, e) = dist g.generator g.min g.max in
      (value, record g { generator = e; last_int = value })

  unfoldable pub last : Uniform E → ℕ
  last g = g.last_int

  unfoldable pub new : E → ℕ → ℕ → Uniform E
  unfolding next
  new e min max = (next (record { generator = e; min = min; max = max; last_int = 0 })).1
