-- ===== src/Generators/RandomCounter.antt =====
-- The classes RandomCounterGenerator and RandomAcknowledgedCounterGenerator of core. std::shuffle,
-- seeded from the random device, is a parameter. fetch_add and each locked block are one step, and
-- the model takes the two steps of a Next together.
pub mod Draws
use my_ycsb_cpp.Prelude.{
  ℕ, zero, suc, ◌+◌, Bool, true, false, ◌||◌, List, [], ◌∷◌, ◌==◌, leb, length, get_elem?,
  if◌then◌else◌,
}
use my_ycsb_cpp.Prelude.{none, some}
use my_ycsb_cpp.Prelude.Bits.{u64, sub_u64}

-- The constructors' loop: start, start + 1, …
unfoldable pub key_range : ℕ → ℕ → List ℕ
key_range start zero = []
key_range start (suc count) = start ∷ key_range (u64 (start + 1)) count

-- A read within the vector; the default is never read, since the code checks the index first.
unfoldable pub key_at : List ℕ → ℕ → ℕ
key_at [] i = 0
key_at (k ∷ keys) zero = k
key_at (k ∷ keys) (suc i) = key_at keys i

pub record RandomCounter : Type 0 where
  pub keys : List ℕ
  pub index : ℕ
  pub start : ℕ
  pub last_returned : ℕ

unfoldable pub new : (List ℕ → List ℕ) → ℕ → ℕ → RandomCounter
unfolding key_range
new shuffle start count = record {
  keys = shuffle (key_range start count);
  index = 0;
  start = start;
  last_returned = sub_u64 start 1;
}

unfoldable pub next : RandomCounter → ℕ × RandomCounter
unfolding key_at
next g =
    let bumped = record g { index = u64 (g.index + 1) } in
    if leb (length g.keys) g.index
    then (g.start, bumped)
    else (key_at g.keys g.index, record bumped { last_returned = key_at g.keys g.index })

unfoldable pub last : RandomCounter → ℕ
last g = g.last_returned

-- RandomAcknowledgedCounterGenerator: the same, and the set of acknowledged values.
pub record RandomAcknowledged : Type 0 where
  pub counter : RandomCounter
  pub acknowledged : List ℕ

unfoldable pub new_acknowledged : (List ℕ → List ℕ) → ℕ → ℕ → RandomAcknowledged
unfolding new
new_acknowledged shuffle start max_count = record {
  counter = new shuffle start max_count;
  acknowledged = [];
}

unfoldable pub next_acknowledged : RandomAcknowledged → ℕ × RandomAcknowledged
unfolding next
next_acknowledged g = let (key, c) = next g.counter in (key, record g { counter = c })

unfoldable pub last_acknowledged : RandomAcknowledged → ℕ
unfolding last
last_acknowledged g = last g.counter

unfoldable pub contains : List ℕ → ℕ → Bool
contains [] v = false
contains (x ∷ xs) v = (x == v) || contains xs v

-- std::unordered_set::insert
unfoldable pub acknowledge : RandomAcknowledged → ℕ → RandomAcknowledged
unfolding contains
acknowledge g value =
    if contains g.acknowledged value then g else record g { acknowledged = value ∷ g.acknowledged }

-- The results of `n` calls of Next in a row, and the generator after them.
unfoldable pub draws : ℕ → RandomCounter → List ℕ × RandomCounter
draws zero g = ([], g)
draws (suc n) g = let (key, g') = next g in let (keys, g'') = draws n g' in (key ∷ keys, g'')
