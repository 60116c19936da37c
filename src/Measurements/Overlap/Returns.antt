-- ===== src/Measurements/Overlap/Returns.antt =====
-- Overlapping calls of Report can always return: no call waits for another.
use my_ycsb_cpp.Prelude.{
  ℕ, zero, suc, ◌+◌, ◌≡◌, refl, ap, ◌∙◌, sym, Bool, true, false, List, [], ◌∷◌, ◌++◌, arith, inl,
  inr, ◌==◌, ltb, not, ◌&&◌, subst, Bool-cases,
}
use my_ycsb_cpp.Prelude.Bits.{u32, u64}
use my_ycsb_cpp.Measurements.Overlap.{
  Counters, Place, HaveReturned, at_count, at_sum, at_min, swap_min, at_max, swap_max, returned,
  advance, Calls, advance_at, run,
}

abbrev alone : ℕ → ℕ → Counters × Place → Counters × Place
alone zero l s = s
alone (suc n) l (c, p) = alone n l (advance false l c p)

abbrev ReturnsAlone : ℕ → Counters × Place → Type 0
ReturnsAlone l s = (n : ℕ) × ((alone n l s).1 ≡ returned)

one_more :
    (l : ℕ) (c : Counters) (p : Place) (s : Counters × Place)
    → advance false l c p ≡ s
    → ReturnsAlone l s
    → ReturnsAlone l (c, p)
one_more l c p s e (n, r) = (suc n, ap (λ x. (alone n l x).1) e ∙ r)

from_returned : (l : ℕ) (c : Counters) → ReturnsAlone l (c, returned)
from_returned l c = (0, refl)

fresh : (a : ℕ) → ((a == a) && not false) ≡ true
fresh a = ground arith

from_fresh_max : (l : ℕ) (c : Counters) → ReturnsAlone l (c, swap_max c.max)
from_fresh_max l c = elim (Bool-cases (ltb c.max l)) [
  | inl less ↦
      one_more l c (swap_max c.max) (record c { max = l }, returned)
        (unfold advance in rw (less, fresh c.max) refl) (from_returned l _)
  | inr most ↦
      one_more l c (swap_max c.max) (c, returned) (unfold advance in rw most refl)
        (from_returned l c)
]

from_at_max : (l : ℕ) (c : Counters) → ReturnsAlone l (c, at_max)
from_at_max l c =
    one_more l c at_max (c, swap_max c.max) (unfold advance in refl) (from_fresh_max l c)

from_fresh_min : (l : ℕ) (c : Counters) → ReturnsAlone l (c, swap_min c.min)
from_fresh_min l c = elim (Bool-cases (ltb l c.min)) [
  | inl less ↦
      one_more l c (swap_min c.min) (record c { min = l }, at_max)
        (unfold advance in rw (less, fresh c.min) refl) (from_at_max l _)
  | inr least ↦
      one_more l c (swap_min c.min) (c, at_max) (unfold advance in rw least refl) (from_at_max l c)
]

from_at_min : (l : ℕ) (c : Counters) → ReturnsAlone l (c, at_min)
from_at_min l c =
    one_more l c at_min (c, swap_min c.min) (unfold advance in refl) (from_fresh_min l c)

from_at_sum : (l : ℕ) (c : Counters) → ReturnsAlone l (c, at_sum)
from_at_sum l c =
    one_more l c at_sum (record c { sum = u64 (c.sum + l) }, at_min) (unfold advance in refl)
      (from_at_min l _)

-- A call that runs alone returns from every place, also with a value that is out of date.
returns_alone : (l : ℕ) (c : Counters) (p : Place) → ReturnsAlone l (c, p)
returns_alone l c at_count =
    one_more l c at_count (record c { count = u32 (c.count + 1) }, at_sum) (unfold advance in refl)
      (from_at_sum l _)
returns_alone l c at_sum = from_at_sum l c
returns_alone l c at_min = from_at_min l c
returns_alone l c (swap_min prev) = elim (Bool-cases (ltb l prev)) [
  | inl less ↦ elim (Bool-cases ((c.min == prev) && not false)) [
    | inl same ↦
        one_more l c (swap_min prev) (record c { min = l }, at_max)
          (unfold advance in rw (less, same) refl) (from_at_max l _)
    | inr other ↦
        one_more l c (swap_min prev) (c, swap_min c.min) (unfold advance in rw (less, other) refl)
          (from_fresh_min l c)
  ]
  | inr least ↦
      one_more l c (swap_min prev) (c, at_max) (unfold advance in rw least refl) (from_at_max l c)
]
returns_alone l c at_max = from_at_max l c
returns_alone l c (swap_max prev) = elim (Bool-cases (ltb prev l)) [
  | inl less ↦ elim (Bool-cases ((c.max == prev) && not false)) [
    | inl same ↦
        one_more l c (swap_max prev) (record c { max = l }, returned)
          (unfold advance in rw (less, same) refl) (from_returned l _)
    | inr other ↦
        one_more l c (swap_max prev) (c, swap_max c.max) (unfold advance in rw (less, other) refl)
          (from_fresh_max l c)
  ]
  | inr most ↦
      one_more l c (swap_max prev) (c, returned) (unfold advance in rw most refl)
        (from_returned l c)
]
returns_alone l c returned = from_returned l c

abbrev Schedule : Type 0
Schedule = List (ℕ × Bool)

abbrev only_first : ℕ → Schedule
only_first zero = []
only_first (suc n) = (0, false) ∷ only_first n

abbrev others : Schedule → Schedule
others [] = []
others ((k, fails) ∷ schedule) = (suc k, fails) ∷ others schedule

run-only_first :
    (n l : ℕ) (c : Counters) (p : Place) (calls : Calls)
    → run (only_first n) c ((l, p) ∷ calls)
      ≡ ((alone n l (c, p)).0, (l, (alone n l (c, p)).1) ∷ calls)
unfolding run advance_at
run-only_first zero l c p calls = refl
run-only_first (suc n) l c p calls =
    run-only_first n l (advance false l c p).0 (advance false l c p).1 calls

run-others :
    (schedule : Schedule) (c : Counters) (call : ℕ × Place) (calls : Calls)
    → run (others schedule) c (call ∷ calls)
      ≡ ((run schedule c calls).0, call ∷ (run schedule c calls).1)
unfolding run advance_at
run-others [] c call calls = refl
run-others ((k, fails) ∷ schedule) c call calls =
    run-others schedule (advance_at k fails c calls).0 call (advance_at k fails c calls).1

run-append :
    (xs ys : Schedule) (c : Counters) (calls : Calls)
    → run (xs ++ ys) c calls ≡ run ys (run xs c calls).0 (run xs c calls).1
unfolding run
run-append [] ys c calls = refl
run-append ((k, fails) ∷ xs) ys c calls =
    run-append xs ys (advance_at k fails c calls).0 (advance_at k fails c calls).1

-- From every state of overlapping calls of Report, whatever the values they hold, some order of
-- steps returns them all.
pub run-HaveReturned :
    (c : Counters) (calls : Calls)
    → (schedule : List (ℕ × Bool)) × HaveReturned (run schedule c calls).1
run-HaveReturned c [] = ([], unfold run in tt)
run-HaveReturned c ((l, p) ∷ calls) =
    let (n, r) = returns_alone l c p in
    let s = alone n l (c, p) in
    let (schedule, h) = run-HaveReturned s.0 calls in
    let e : run (only_first n ++ others schedule) c ((l, p) ∷ calls)
        ≡ ((run schedule s.0 calls).0, (l, s.1) ∷ (run schedule s.0 calls).1) =
      run-append (only_first n) (others schedule) c ((l, p) ∷ calls)
      ∙ ap (λ (x : Counters × Calls). run (others schedule) x.0 x.1) (run-only_first n l c p calls)
      ∙ run-others schedule s.0 (l, s.1) calls in
    (
      only_first n ++ others schedule,
      subst (λ (x : Counters × Calls). HaveReturned x.1) (sym e) (r, h),
    )
