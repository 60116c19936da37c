-- ===== src/Generators/RandomCounter/Draws.antt =====
-- What a sequence of calls of Next returns.
use mathlib.Core.List.{Perm}
use my_ycsb_cpp.Prelude.{
  ℕ, zero, suc, ◌+◌, ◌<◌, ◌^◌, ◌≡◌, refl, ap, sym, ◌∙◌, List, [], ◌∷◌, ◌++◌, length, length-append,
  arith, subst, append_assoc, append-nil, leb, false,
}
use my_ycsb_cpp.Prelude.Bits.{u64}
use my_ycsb_cpp.Generators.RandomCounter.{
  RandomCounter, new, next, draws, key_at, key_range, RandomAcknowledged, acknowledge,
  next_acknowledged, last_acknowledged,
}

key_at-append : (front back : List ℕ) (b : ℕ) → key_at (front ++ b ∷ back) (length front) ≡ b
unfolding key_at
key_at-append [] back b = refl
key_at-append (f ∷ front) back b = key_at-append front back b

next_lem :
    (g : RandomCounter) (front back : List ℕ) (b : ℕ)
    → g.keys ≡ front ++ b ∷ back
    → g.index ≡ length front
    → length g.keys < 2 ^ 64
    → next g ≡ (b, record g { index = g.index + 1; last_returned = b })
unfolding next
next_lem g front back b k i fits =
    let size : length g.keys ≡ length front + suc (length back) =
      ap length k ∙ length-append front (b ∷ back) in
    let inside : leb (length g.keys) g.index ≡ false = ground arith in
    let key : key_at g.keys g.index ≡ b = rw (k, i) (key_at-append front back b) in
    rw inside (ground (arith, key))

draws_step :
    (n : ℕ) (g g' : RandomCounter) (b : ℕ)
    → next g ≡ (b, g')
    → draws (suc n) g ≡ (b ∷ (draws n g').0, (draws n g').1)
unfolding draws
draws_step n g g' b e = rw e

-- From the index on, Next returns the keys in their order, and stops behind the last.
draws-keys :
    (front back : List ℕ) (g : RandomCounter)
    → g.keys ≡ front ++ back
    → g.index ≡ length front
    → length g.keys < 2 ^ 64
    → ((draws (length back) g).0 ≡ back)
      × ((draws (length back) g).1.keys ≡ g.keys)
      × ((draws (length back) g).1.index ≡ length g.keys)
      × ((draws (length back) g).1.start ≡ g.start)
draws-keys front [] g k i fits =
    unfold draws in (refl, refl, i ∙ sym (ap length (k ∙ append-nil front)), refl)
draws-keys front (b ∷ back) g k i fits =
    let g' = record g { index = g.index + 1; last_returned = b } in
    let ih =
      draws-keys (front ++ b ∷ []) back g' (k ∙ sym (append_assoc front (b ∷ []) back))
        (omega (arith, length-append front (b ∷ []))) fits in
    rw (draws_step (length back) g g' b (next_lem g front back b k i fits))
      (ap (◌∷◌ b) ih.0, ih.1, ih.2, ih.3)

length-key_range : (start count : ℕ) → length (key_range start count) ≡ count
unfolding key_range
length-key_range start zero = refl
length-key_range start (suc count) = ap suc (length-key_range (u64 (start + 1)) count)

exhausted : (g : RandomCounter) → g.index ≡ length g.keys → (next g).0 ≡ g.start
unfolding next
exhausted g e = ground arith

-- The first `count` calls of Next return each key of the range once, in the shuffled order, and
-- the call after them falls back to the start.
pub draws-new :
    (shuffle : List ℕ → List ℕ) (start count : ℕ)
    → ((keys : List ℕ) → Perm (shuffle keys) keys)
    → ((keys : List ℕ) → length (shuffle keys) ≡ length keys)
    → count < 2 ^ 64
    → let run = draws count (new shuffle start count) in
      Perm run.0 (key_range start count) × ((next run.1).0 ≡ start)
unfolding new
draws-new shuffle start count perm size fits =
    let keys = shuffle (key_range start count) in
    let n : length keys ≡ count = size (key_range start count) ∙ length-key_range start count in
    let g : RandomCounter = new shuffle start count in
    let (all, same, at_end, from) = draws-keys [] keys g refl refl (omega (arith, n)) in
    subst (λ m. Perm (draws m g).0 (key_range start count) × ((next (draws m g).1).0 ≡ start)) n
      (
        rw all (perm (key_range start count)),
        exhausted (draws (length keys) g).1 (at_end ∙ sym (ap length same)) ∙ from,
      )

-- Last of the acknowledged variant is the key handed out last, whether or not it was acknowledged:
-- while keys are left, a Next moves it to the key that it returns, adds no acknowledgement, and an
-- acknowledgement never moves it.
pub last_acknowledged_lem :
    (g : RandomAcknowledged) (value : ℕ)
    → g.counter.index < length g.counter.keys
    → (last_acknowledged (next_acknowledged g).1 ≡ (next_acknowledged g).0)
      × ((next_acknowledged g).1.acknowledged ≡ g.acknowledged)
      × (last_acknowledged (acknowledge g value) ≡ last_acknowledged g)
unfolding last_acknowledged next_acknowledged acknowledge
last_acknowledged_lem g value h = (ground arith, ground arith, ground arith)
