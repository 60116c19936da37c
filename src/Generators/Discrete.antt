-- ===== src/Generators/Discrete.antt =====
-- The class DiscreteGenerator of core/discrete_generator.h, over any `double`. The result of
-- ThreadLocalRandomDouble is an argument. Asserts are off, as in a release build: where no weight
-- is met, Next returns `last_`, which is not initialised (`none`) before the first AddValue.
pub mod Choices
use my_ycsb_cpp.Prelude.{
  ℕ, ◌≡◌, ◌≢◌, refl, Bool, true, false, List, [], ◌∷◌, ◌++◌, Option, none, some, ◌⊎◌, inl, inr,
  arith, Bool-cases, if◌then◌else◌, All,
}
use my_ycsb_cpp.Prelude.Float.{Float}

pub record DiscreteGenerator (fl : Float) (V : Type 0) : Type 0 where
  pub values : List (V × fl.F)
  pub sum : fl.F
  pub last : Option V

module _ (fl : Float) {V : Type 0} where
  unfoldable pub add_value : DiscreteGenerator fl V → V → fl.F → DiscreteGenerator fl V
  add_value g v weight = record {
    values = g.values ++ (v, weight) ∷ [];
    sum = fl.add g.sum weight;
    last = elim g.values [ [] ↦ some v | _ ∷ _ ↦ g.last ];
  }

  -- The loop of Next, with what is left of `chooser`.
  unfoldable pub pick : List (V × fl.F) → fl.F → fl.F → Option V
  pick [] sum chooser = none
  pick ((v, w) ∷ rest) sum chooser =
      let later = pick rest sum (fl.sub chooser (fl.div w sum)) in
      if fl.lt chooser (fl.div w sum) then some v else later

  unfoldable pub next : DiscreteGenerator fl V → fl.F → Option V × DiscreteGenerator fl V
  unfolding pick
  next g chooser = elim (pick g.values g.sum chooser) [
    | some v ↦ (some v, record g { last = some v })
    | none ↦ (g.last, g)
  ]

-- A generator with no value.
unfoldable pub new : (fl : Float) (V : Type 0) → DiscreteGenerator fl V
new fl V = record { values = []; sum = fl.dec 0 0; last = none }
