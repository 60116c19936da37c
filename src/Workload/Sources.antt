-- ===== src/Workload/Sources.antt =====
-- The randomness that a workload uses, and the generators behind its `Generator<uint64_t>`
-- pointers.
use my_ycsb_cpp.Prelude.{ℕ, List}
use my_ycsb_cpp.Prelude.Float.{Float}
use my_ycsb_cpp.Generators.Counter
use my_ycsb_cpp.Generators.Counter.{ConstGenerator, CounterGenerator}
use my_ycsb_cpp.Generators.Acknowledged
use my_ycsb_cpp.Generators.Acknowledged.{Acknowledged}
use my_ycsb_cpp.Generators.RandomCounter
use my_ycsb_cpp.Generators.RandomCounter.{RandomCounter, RandomAcknowledged}
use my_ycsb_cpp.Generators.Uniform
use my_ycsb_cpp.Generators.Uniform.{Uniform}
use my_ycsb_cpp.Generators.Zipfian
use my_ycsb_cpp.Generators.Zipfian.{Zipfian}
use my_ycsb_cpp.Generators.Scrambled
use my_ycsb_cpp.Generators.Scrambled.{Scrambled}
use my_ycsb_cpp.Generators.Latest
use my_ycsb_cpp.Generators.Latest.{Latest}

-- The standard library's random numbers: a state R for ThreadLocalRandomDouble, its kin and the
-- shuffles, and the engines of the uniform generators, which start from their default seed.
pub record Sources (fl : Float) : Type 1 where
  pub R : Type 0
  pub double : R → fl.F × R
  pub int : R → ℕ × R
  pub shuffle : R → List ℕ → List ℕ
  pub shuffled : R → R
  pub E : Type 0
  pub engine : E
  pub dist : E → ℕ → ℕ → ℕ × E

module _ (fl : Float) (src : Sources fl) where
  open src use {R, E, double, dist}

  -- The key, length and field choosers.
  pub data Chooser : Type 0 where
    const_gen : ConstGenerator → Chooser
    uniform : Uniform E → Chooser
    zipfian : Zipfian fl → Chooser
    scrambled : Scrambled fl → Chooser
    latest : Latest fl → Chooser

  -- Next, with what the Last of the counter that a `latest` chooser shares would return.
  unfoldable pub chooser_next : Chooser → ℕ → R → ℕ × Chooser × R
  unfolding Counter.const_next Uniform.next Zipfian.next Scrambled.next Latest.next
  chooser_next (const_gen g) basis r = let (v, g') = Counter.const_next g in (v, const_gen g', r)
  chooser_next (uniform g) basis r = let (v, g') = Uniform.next dist g in (v, uniform g', r)
  chooser_next (zipfian g) basis r =
      let (u, r') = double r in let (v, g') = Zipfian.next fl g u in (v, zipfian g', r')
  chooser_next (scrambled g) basis r =
      let (u, r') = double r in let (v, g') = Scrambled.next fl g u in (v, scrambled g', r')
  chooser_next (latest g) basis r =
      let (u, r') = double r in let (v, g') = Latest.next fl g basis u in (v, latest g', r')

-- insert_key_sequence_
pub data InsertSequence : Type 0 where
  counter : CounterGenerator → InsertSequence
  random : RandomCounter → InsertSequence

unfoldable pub insert_next : InsertSequence → ℕ × InsertSequence
unfolding Counter.next RandomCounter.next
insert_next (counter g) = let (v, g') = Counter.next g in (v, counter g')
insert_next (random g) = let (v, g') = RandomCounter.next g in (v, random g')

-- transaction_insert_key_sequence_
pub data Sequence : Type 0 where
  acked : Acknowledged → Sequence
  random_acked : RandomAcknowledged → Sequence

unfoldable pub sequence_next : Sequence → ℕ × Sequence
unfolding Acknowledged.next RandomCounter.next_acknowledged
sequence_next (acked g) = let (v, g') = Acknowledged.next g in (v, acked g')
sequence_next (random_acked g) =
    let (v, g') = RandomCounter.next_acknowledged g in (v, random_acked g')

unfoldable pub sequence_last : Sequence → ℕ
unfolding Acknowledged.last RandomCounter.last_acknowledged
sequence_last (acked g) = Acknowledged.last g
sequence_last (random_acked g) = RandomCounter.last_acknowledged g
