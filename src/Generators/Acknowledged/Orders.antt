-- ===== src/Generators/Acknowledged/Orders.antt =====
-- The order of acknowledgements, and an acknowledgement a whole window ahead.
use my_ycsb_cpp.Prelude.{
  ℕ, zero, suc, ◌+◌, ◌-◌, ◌≤◌, ◌<◌, ◌^◌, ◌*◌, ◌≡◌, refl, Bool, true, false, List, [], ◌∷◌, arith,
}
use my_ycsb_cpp.Prelude.Bits.{sub_u64}
use my_ycsb_cpp.Prelude.Result.{ok}
use my_ycsb_cpp.Generators.Acknowledged.{
  Acknowledged, window_size, slot_of, Window, put, scan, last, acknowledge,
}
use my_ycsb_cpp.Generators.Acknowledged.Scan.{scan-le, scan-le-add}
use my_ycsb_cpp.Generators.Acknowledged.Tracking.{Tracks, with_value, moved, acknowledge_lem}

-- The acknowledged values after those of a list.
abbrev pub after : (ℕ → Bool) → List ℕ → ℕ → Bool
after acked [] = acked
after acked (v ∷ vs) = after (with_value acked v) vs

-- Values of a range, none of them acknowledged before.
abbrev pub IsFresh : ℕ → ℕ → (ℕ → Bool) → List ℕ → Type 0
IsFresh start n acked [] = Unit
IsFresh start n acked (v ∷ vs) =
    (start ≤ v) × (v < start + n) × (acked v ≡ false) × IsFresh start n (with_value acked v) vs

passes :
    (limit : ℕ) (w : Window) (slot rounds : ℕ)
    → slot ≡ slot_of (limit + 1)
    → suc (rounds - 1) ≡ rounds
    → rounds < window_size
    → limit + 2 * window_size < 2 ^ 64
    → limit + 1 ≤ sub_u64 (scan rounds (limit + 1) (put w slot true)).0 1
unfolding scan
passes limit w slot zero e h few room = absurd (omega arith)
passes limit w slot (suc rounds) e h few room =
    let w1 = put (put w slot true) (slot_of (limit + 1)) false in
    ground (arith, scan-le rounds (limit + 1 + 1) w1, scan-le-add rounds (limit + 1 + 1) w1)

-- A value exactly a window and one ahead of the limit falls on the slot of the value that is
-- missing. The call succeeds, and the limit passes a value that nobody acknowledged.
pub acknowledge_window_ahead :
    {start : ℕ} {acked : ℕ → Bool} (g : Acknowledged)
    → Tracks start acked g
    → g.limit + 2 * window_size < 2 ^ 64
    → (g' : Acknowledged) × (acknowledge g (g.limit + 1 + window_size) ≡ ok g')
      × (last g + 1 ≤ last g')
      × (acked (last g + 1) ≡ false)
unfolding last
acknowledge_window_ahead g t room =
    let value = g.limit + 1 + window_size in
    let clear : g.ack_window (slot_of value) ≡ false =
      ground (arith, t.window (g.limit + 1), t.gap) in
    let rounds = window_size - 1 in
    (
      moved g value rounds,
      acknowledge_lem g value rounds clear t.fits refl,
      passes g.limit g.ack_window (slot_of value) rounds (omega arith) refl (omega arith) room,
      t.gap,
    )
