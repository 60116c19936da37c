-- ===== src/Measurements/Overlap/Settled.antt =====
-- What the counters hold once overlapping calls of Report have returned.
use my_ycsb_cpp.Prelude.{
  ℕ, zero, suc, ◌+◌, ◌≤◌, ◌<◌, ◌^◌, ◌≡◌, refl, ap, ◌∙◌, Bool, List, [], ◌∷◌, length, arith, inl,
  inr, ◌⊎◌, All, subst,
}
use my_ycsb_cpp.Prelude.Bits.{u32, u64}
use my_ycsb_cpp.Measurements.Reports.{IsIn, total}
use my_ycsb_cpp.Measurements.Overlap.{
  Counters, Place, HaveReturned, advance, Calls, advance_at, run, begin,
}
use my_ycsb_cpp.Measurements.Overlap.Steps.{Holds, counted, summed, Holds-later, advance-Advanced}

abbrev pub latencies : Calls → List ℕ
latencies [] = []
latencies ((l, _) ∷ calls) = l ∷ latencies calls

abbrev pub counted_all : Calls → ℕ
counted_all [] = 0
counted_all ((_, p) ∷ calls) = counted p + counted_all calls

abbrev pub summed_all : Calls → ℕ
summed_all [] = 0
summed_all ((l, p) ∷ calls) = summed l p + summed_all calls

abbrev pub Hold : Counters → Calls → Type 0
Hold c = All (λ (call : ℕ × Place). Holds c call.0 call.1)

Hold-later :
    (c c' : Counters) (calls : Calls)
    → c'.min ≤ c.min
    → c.max ≤ c'.max
    → Hold c calls
    → Hold c' calls
Hold-later c c' [] a b h = tt
Hold-later c c' ((l, p) ∷ calls) a b h =
    (Holds-later c c' l p a b h.0, Hold-later c c' calls a b h.1)

-- How the counters and the calls move.
record Moved (c : Counters) (calls : Calls) (c' : Counters) (calls' : Calls) : Type 0 where
  least : c'.min ≤ c.min
  most : c.max ≤ c'.max
  same : latencies calls' ≡ latencies calls
  hold : Hold c calls → Hold c' calls'
  min_from : (c'.min ≡ c.min) ⊎ IsIn c'.min (latencies calls)
  max_from : (c'.max ≡ c.max) ⊎ IsIn c'.max (latencies calls)
  count : (n : ℕ) → c.count ≡ u32 (n + counted_all calls) → c'.count ≡ u32 (n + counted_all calls')
  sum : (n : ℕ) → c.sum ≡ u64 (n + summed_all calls) → c'.sum ≡ u64 (n + summed_all calls')

Moved-refl : (c : Counters) (calls : Calls) → Moved c calls c calls
Moved-refl c calls = record {
  least = omega arith;
  most = omega arith;
  same = refl;
  hold = λ h. h;
  min_from = inl refl;
  max_from = inl refl;
  count = λ n q. q;
  sum = λ n q. q;
}

advance_at-Moved :
    (k : ℕ) (fails : Bool) (c : Counters) (calls : Calls)
    → let r = advance_at k fails c calls in Moved c calls r.0 r.1
unfolding advance_at
advance_at-Moved k fails c [] = Moved-refl c []
advance_at-Moved zero fails c ((l, p) ∷ calls) =
    let a = advance-Advanced fails l c p in
    record {
      least = a.least;
      most = a.most;
      same = refl;
      hold = λ h. (a.holds h.0, Hold-later c (advance fails l c p).0 calls a.least a.most h.1);
      min_from = elim a.min_from [ inl e ↦ inl e | inr e ↦ inr (inl e) ];
      max_from = elim a.max_from [ inl e ↦ inl e | inr e ↦ inr (inl e) ];
      count = λ n q. omega (arith, a.count (n + counted_all calls) (omega (arith, q)));
      sum = λ n q. omega (arith, a.sum (n + summed_all calls) (omega (arith, q)));
    }
advance_at-Moved (suc k) fails c ((l, p) ∷ calls) =
    let m = advance_at-Moved k fails c calls in
    record {
      least = m.least;
      most = m.most;
      same = ap (◌∷◌ l) m.same;
      hold = λ h. (Holds-later c (advance_at k fails c calls).0 l p m.least m.most h.0, m.hold h.1);
      min_from = elim m.min_from [ inl e ↦ inl e | inr e ↦ inr (inr e) ];
      max_from = elim m.max_from [ inl e ↦ inl e | inr e ↦ inr (inr e) ];
      count = λ n q. omega (arith, m.count (n + counted p) (omega (arith, q)));
      sum = λ n q. omega (arith, m.sum (n + summed l p) (omega (arith, q)));
    }

-- A value reached in two stages.
reached :
    (xs : List ℕ) {a b c : ℕ} → (b ≡ a) ⊎ IsIn b xs → (c ≡ b) ⊎ IsIn c xs → (c ≡ a) ⊎ IsIn c xs
reached xs p (inr h) = inr h
reached xs (inl e) (inl e') = inl (e' ∙ e)
reached xs (inr h) (inl e') = inr (rw e' h)

run-Moved :
    (schedule : List (ℕ × Bool)) (c : Counters) (calls : Calls)
    → let r = run schedule c calls in Moved c calls r.0 r.1
unfolding run
run-Moved [] c calls = Moved-refl c calls
run-Moved ((k, fails) ∷ schedule) c calls =
    let m = advance_at-Moved k fails c calls in
    let step = advance_at k fails c calls in
    let last = run schedule step.0 step.1 in
    let rest = run-Moved schedule step.0 step.1 in
    record {
      least = omega (arith, m.least, rest.least);
      most = omega (arith, m.most, rest.most);
      same = rest.same ∙ m.same;
      hold = λ h. rest.hold (m.hold h);
      min_from =
          reached (latencies calls) m.min_from
            (subst (λ ls. (last.0.min ≡ step.0.min) ⊎ IsIn last.0.min ls) m.same rest.min_from);
      max_from =
          reached (latencies calls) m.max_from
            (subst (λ ls. (last.0.max ≡ step.0.max) ⊎ IsIn last.0.max ls) m.same rest.max_from);
      count = λ n q. rest.count n (m.count n q);
      sum = λ n q. rest.sum n (m.sum n q);
    }

latencies-begin : (ls : List ℕ) → latencies (begin ls) ≡ ls
latencies-begin [] = refl
latencies-begin (l ∷ ls) = ap (◌∷◌ l) (latencies-begin ls)

begin-Hold : (c : Counters) (ls : List ℕ) → Hold c (begin ls)
begin-Hold c [] = tt
begin-Hold c (l ∷ ls) = (tt, begin-Hold c ls)

counted_all-begin : (ls : List ℕ) → counted_all (begin ls) ≡ 0
counted_all-begin [] = refl
counted_all-begin (l ∷ ls) = omega (arith, counted_all-begin ls)

summed_all-begin : (ls : List ℕ) → summed_all (begin ls) ≡ 0
summed_all-begin [] = refl
summed_all-begin (l ∷ ls) = omega (arith, summed_all-begin ls)

-- What holds of the counters of returned calls.
at_end :
    (c : Counters) (calls : Calls)
    → HaveReturned calls
    → Hold c calls
    → (counted_all calls ≡ length (latencies calls))
      × (summed_all calls ≡ total (latencies calls))
      × All (λ l. (c.min ≤ l) × (l ≤ c.max)) (latencies calls)
at_end c [] r h = (refl, refl, tt)
at_end c ((l, p) ∷ calls) r h =
    let rest = at_end c calls r.1 h.1 in
    (
      omega (arith, ap counted r.0, rest.0),
      omega (arith, ap (summed l) r.0, rest.1),
      (subst (Holds c l) r.0 h.0, rest.2),
    )

-- How the counters move from `c` to `c'` when `ls` is reported.
pub record Settled (ls : List ℕ) (c c' : Counters) : Type 0 where
  pub count : c'.count ≡ u32 (c.count + length ls)
  pub sum : c'.sum ≡ u64 (c.sum + total ls)
  pub least : c'.min ≤ c.min
  pub most : c.max ≤ c'.max
  pub bounds : All (λ l. (c'.min ≤ l) × (l ≤ c'.max)) ls
  pub min_reached : (c'.min ≡ c.min) ⊎ IsIn c'.min ls
  pub max_reached : (c'.max ≡ c.max) ⊎ IsIn c'.max ls

-- Calls of Report that overlap in any order of their accesses, with exchanges that fail at will,
-- add the number and the sum of their latencies, modulo the counters' ranges, and move the minimum
-- and the maximum to the least and the greatest latency seen, from counters in range, once all of
-- them have returned.
pub run-Settled :
    (ls : List ℕ) (schedule : List (ℕ × Bool)) (c : Counters)
    → c.count < 2 ^ 32
    → c.sum < 2 ^ 64
    → HaveReturned (run schedule c (begin ls)).1
    → Settled ls c (run schedule c (begin ls)).0
run-Settled ls schedule c small small' done =
    let m = run-Moved schedule c (begin ls) in
    let c' = (run schedule c (begin ls)).0 in
    let calls = (run schedule c (begin ls)).1 in
    let same : latencies calls ≡ ls = m.same ∙ latencies-begin ls in
    let e = at_end c' calls done (m.hold (begin-Hold c ls)) in
    record {
      count =
          m.count c.count (omega (arith, counted_all-begin ls))
          ∙ ap (λ n. u32 (c.count + n)) (e.0 ∙ ap length same);
      sum =
          m.sum c.sum (omega (arith, summed_all-begin ls))
          ∙ ap (λ n. u64 (c.sum + n)) (e.1 ∙ ap total same);
      least = m.least;
      most = m.most;
      bounds = subst (All (λ l. (c'.min ≤ l) × (l ≤ c'.max))) same e.2;
      min_reached = subst (λ xs. (c'.min ≡ c.min) ⊎ IsIn c'.min xs) (latencies-begin ls) m.min_from;
      max_reached = subst (λ xs. (c'.max ≡ c.max) ⊎ IsIn c'.max xs) (latencies-begin ls) m.max_from;
    }
