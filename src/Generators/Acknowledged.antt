-- ===== src/Generators/Acknowledged.antt =====
-- The class AcknowledgedCounterGenerator of core/acknowledged_counter_generator. Acknowledge runs
-- under the mutex, so it is one step. The window is a function of the slot; slots are masked.
pub mod Scan
pub mod Tracking
pub mod Orders
use my_ycsb_cpp.Prelude.{
  ℕ, zero, suc, ◌+◌, ◌-◌, ◌%◌, ◌^◌, Bool, true, false, List, [], ◌∷◌, ◌==◌, if◌then◌else◌,
}
use my_ycsb_cpp.Prelude.Bits.{u64, sub_u64}
use my_ycsb_cpp.Prelude.Bytes.{lit}
use my_ycsb_cpp.Prelude.Result.{Result, ok, err, exception, ◌>>=◌}
use my_ycsb_cpp.Generators.Counter

abbrev pub window_size : ℕ
window_size = 2 ^ 16

-- `x & kWindowMask`
abbrev pub slot_of : ℕ → ℕ
slot_of x = x % window_size

abbrev pub Window : Type 0
Window = ℕ → Bool

abbrev pub put : Window → ℕ → Bool → Window
put w slot b = λ j. if j == slot then b else w j

pub record Acknowledged : Type 0 where
  pub counter : ℕ
  pub limit : ℕ
  pub ack_window : Window

unfoldable pub new : ℕ → Acknowledged
new start = record { counter = start; limit = sub_u64 start 1; ack_window = λ _. false }

-- The inherited Next
unfoldable pub next : Acknowledged → ℕ × Acknowledged
unfolding Counter.next
next g =
    let (value, c) = Counter.next (record { counter = g.counter }) in
    (value, record g { counter = c.counter })

unfoldable pub last : Acknowledged → ℕ
last g = g.limit

-- The loop of Acknowledge, with the rounds left before `i` reaches `until`: the first slot that is
-- not set, and the window with the slots before it cleared.
unfoldable pub scan : ℕ → ℕ → Window → ℕ × Window
scan zero i w = (i, w)
scan (suc rounds) i w =
    let rest = scan rounds (i + 1) (put w (slot_of i) false) in
    if w (slot_of i) then rest else (i, w)

unfoldable pub acknowledge : Acknowledged → ℕ → Result Acknowledged
unfolding scan
acknowledge g value =
    if g.ack_window (slot_of value)
    then err (exception (lit "Not enough window size"))
    else let until = u64 (g.limit + window_size) in
      let first = u64 (g.limit + 1) in
      let (i, w) = scan (until - first) first (put g.ack_window (slot_of value) true) in
      ok (record g { limit = sub_u64 i 1; ack_window = w })

-- Calls of Acknowledge, one after the other.
unfoldable pub acknowledge_all : Acknowledged → List ℕ → Result Acknowledged
acknowledge_all g [] = ok g
acknowledge_all g (v ∷ vs) = do g' ← acknowledge g v; acknowledge_all g' vs
