-- ===== src/Generators/Acknowledged/Tracking.antt =====
-- The generator against the set of values that were acknowledged.
use my_ycsb_cpp.Prelude.{
  ℕ, ◌+◌, ◌-◌, ◌≤◌, ◌<◌, ◌^◌, ◌*◌, ◌≡◌, refl, Bool, true, false, ◌==◌, arith, if◌then◌else◌,
}
use my_ycsb_cpp.Prelude.Bits.{u64, sub_u64}
use my_ycsb_cpp.Prelude.Result.{ok}
use my_ycsb_cpp.Generators.Acknowledged.{
  Acknowledged, window_size, slot_of, Window, put, scan, new, last, acknowledge,
}
use my_ycsb_cpp.Generators.Acknowledged.Scan.{Scanning, scan-Scanning}

-- The limit is the last of the values from `start` on that are acknowledged without a gap, and the
-- window holds the values acknowledged behind the gap, which are fewer than a window ahead.
pub record Tracks (start : ℕ) (acked : ℕ → Bool) (g : Acknowledged) : Type 0 where
  pub low : start ≤ g.limit + 1
  pub fits : g.limit + window_size < 2 ^ 64
  pub no_gap : (v : ℕ) → start ≤ v → v ≤ g.limit → acked v ≡ true
  pub gap : acked (g.limit + 1) ≡ false
  pub far : (v : ℕ) → g.limit + window_size ≤ v → acked v ≡ false
  pub own : g.ack_window (slot_of g.limit) ≡ false
  pub window :
      (v : ℕ) → g.limit < v → v < g.limit + window_size → g.ack_window (slot_of v) ≡ acked v

abbrev pub with_value : (ℕ → Bool) → ℕ → ℕ → Bool
with_value acked value u = if u == value then true else acked u

-- A new generator tracks the empty set.
pub new-Tracks :
    (start : ℕ) → 0 < start → start + window_size < 2 ^ 64 → Tracks start (λ _. false) (new start)
unfolding new
new-Tracks start positive small = record {
  low = omega arith;
  fits = omega arith;
  no_gap = λ v lo hi. absurd (omega arith);
  gap = refl;
  far = λ v h. refl;
  own = refl;
  window = λ v lo hi. refl;
}

-- The state after the loop has gone `rounds` rounds at most from behind the limit.
abbrev pub moved : Acknowledged → ℕ → ℕ → Acknowledged
moved g value rounds =
    let (i, w) = scan rounds (g.limit + 1) (put g.ack_window (slot_of value) true) in
    record g { limit = sub_u64 i 1; ack_window = w }

pub acknowledge_lem :
    (g : Acknowledged) (value rounds : ℕ)
    → g.ack_window (slot_of value) ≡ false
    → g.limit + window_size < 2 ^ 64
    → rounds ≡ window_size - 1
    → acknowledge g value ≡ ok (moved g value rounds)
unfolding acknowledge
acknowledge_lem g value rounds clear fits e =
    let first : u64 (g.limit + 1) ≡ g.limit + 1 = omega arith in
    let count : u64 (g.limit + window_size) - (g.limit + 1) ≡ rounds = omega arith in
    rw (clear, first, count) refl

module _ {start : ℕ} {acked : ℕ → Bool} {g : Acknowledged} (t : Tracks start acked g) where
  begin-Scanning :
      (value : ℕ)
      → g.limit < value
      → value < g.limit + window_size
      → Scanning g.limit
          (with_value acked value)
          (g.limit + 1)
          (put g.ack_window (slot_of value) true)
  begin-Scanning value lo hi = record {
    above = omega arith;
    within = omega arith;
    passed = λ v a b. absurd (omega arith);
    own = ground (arith, t.own);
    cleared = λ v a b. absurd (omega arith);
    ahead = λ v a b. ground (arith, t.window v);
  }

  end-Tracks :
      (value i : ℕ) (w : Window)
      → value < g.limit + window_size
      → i + window_size < 2 ^ 64
      → Scanning g.limit (with_value acked value) i w
      → with_value acked value i ≡ false
      → Tracks start (with_value acked value) (record g { limit = sub_u64 i 1; ack_window = w })
  end-Tracks value i w hi small s stop =
      let e : sub_u64 i 1 + 1 ≡ i = omega (arith, s.above) in
      record {
        low = omega (arith, t.low, s.above);
        fits = omega arith;
        no_gap = λ v lo le. ground (arith, t.no_gap v lo, s.passed v);
        gap = rw e stop;
        far = λ v h. ground (arith, t.far v, s.above);
        own = ground (arith, s.own, s.cleared (sub_u64 i 1), s.above);
        window = λ v lo h.
            ground
              (arith, s.ahead v, s.own, s.cleared (v - window_size), t.far v, s.above, s.within);
      }

  -- Acknowledging a value once, less than a window ahead of the limit, succeeds; then the limit is
  -- again the last value without a gap behind it, and it has not gone back.
  pub acknowledge-Tracks :
      (value : ℕ)
      → g.limit < value
      → value < g.limit + window_size
      → acked value ≡ false
      → g.limit + 2 * window_size < 2 ^ 64
      → (g' : Acknowledged) × (acknowledge g value ≡ ok g')
        × Tracks start (with_value acked value) g'
        × (last g ≤ last g')
  unfolding last
  acknowledge-Tracks value lo hi new_value room =
      let rounds = window_size - 1 in
      let clear : g.ack_window (slot_of value) ≡ false = ground (arith, t.window value) in
      let far : with_value acked value (g.limit + window_size) ≡ false =
        ground (arith, t.far (g.limit + window_size)) in
      let (s, stop) =
        scan-Scanning rounds (g.limit + 1) (put g.ack_window (slot_of value) true) (omega arith) far
          (begin-Scanning value lo hi) in
      (
        moved g value rounds,
        acknowledge_lem g value rounds clear t.fits refl,
        end-Tracks value _ _ hi (omega (arith, s.within)) s stop,
        omega (arith, s.above, s.within),
      )
