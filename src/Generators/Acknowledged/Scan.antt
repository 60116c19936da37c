-- ===== src/Generators/Acknowledged/Scan.antt =====
-- The loop over the window.
use my_ycsb_cpp.Prelude.{
  ℕ, zero, suc, ◌+◌, ◌≤◌, ◌<◌, ◌≡◌, Bool, true, false, arith, inl, inr, Bool-cases,
}
use my_ycsb_cpp.Generators.Acknowledged.{window_size, slot_of, Window, put, scan}

-- What the loop knows at `i`, for the limit and the set of acknowledged values at its start.
pub record Scanning (limit : ℕ) (acked : ℕ → Bool) (i : ℕ) (w : Window) : Type 0 where
  pub above : limit < i
  pub within : i ≤ limit + window_size
  pub passed : (v : ℕ) → limit < v → v < i → acked v ≡ true
  pub own : w (slot_of limit) ≡ false
  pub cleared : (v : ℕ) → limit < v → v < i → w (slot_of v) ≡ false
  pub ahead : (v : ℕ) → i ≤ v → v < limit + window_size → w (slot_of v) ≡ acked v

module _ {limit : ℕ} {acked : ℕ → Bool} where
  step-Scanning :
      (i : ℕ) (w : Window)
      → Scanning limit acked i w
      → i < limit + window_size
      → w (slot_of i) ≡ true
      → Scanning limit acked (i + 1) (put w (slot_of i) false)
  step-Scanning i w s room set = record {
    above = omega (arith, s.above);
    within = omega arith;
    passed = λ v lo hi. ground (arith, s.passed v, s.ahead i, s.above);
    own = ground (arith, s.own);
    cleared = λ v lo hi. ground (arith, s.cleared v);
    ahead = λ v lo hi. ground (arith, s.ahead v, s.above);
  }

  -- The loop ends at a value that is not acknowledged, and knows there what it knew before.
  pub scan-Scanning :
      (rounds i : ℕ) (w : Window)
      → i + rounds ≡ limit + window_size
      → acked (limit + window_size) ≡ false
      → Scanning limit acked i w
      → Scanning limit acked (scan rounds i w).0 (scan rounds i w).1
        × (acked (scan rounds i w).0 ≡ false)
  unfolding scan
  scan-Scanning zero i w e far s =
      let e' : limit + window_size ≡ i = omega arith in (s, rw e' at far)
  scan-Scanning (suc rounds) i w e far s = elim (Bool-cases (w (slot_of i))) [
    | inl set ↦ rw set (
        scan-Scanning rounds (i + 1) (put w (slot_of i) false) (omega arith) far
          (step-Scanning i w s (omega arith) set))
    | inr clear ↦ rw clear (s, ground (arith, s.ahead i))
  ]

pub scan-le : (rounds i : ℕ) (w : Window) → i ≤ (scan rounds i w).0
unfolding scan
scan-le zero i w = omega arith
scan-le (suc rounds) i w = ground (arith, scan-le rounds (i + 1) (put w (slot_of i) false))

pub scan-le-add : (rounds i : ℕ) (w : Window) → (scan rounds i w).0 ≤ i + rounds
unfolding scan
scan-le-add zero i w = omega arith
scan-le-add (suc rounds) i w = ground (arith, scan-le-add rounds (i + 1) (put w (slot_of i) false))
