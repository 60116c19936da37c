-- ===== src/Workload/Transactions/Rejection.antt =====
-- The loops that draw a key until it is no larger than the last key of the insert sequence.
use my_ycsb_cpp.Prelude.{ℕ, zero, suc, ◌≤◌, ◌<◌, ◌≡◌, arith, lt→ltb}
use my_ycsb_cpp.Prelude.Float.{Float}
use my_ycsb_cpp.Prelude.Bytes.{Bytes}
use my_ycsb_cpp.Db.{Database}
use my_ycsb_cpp.Workload.Sources.{Sources}
use my_ycsb_cpp.Workload.State.{World, done}
use my_ycsb_cpp.Workload.Draws.{last_key, key_loop}

module _ (fl : Float) (src : Sources fl) (db : Database) where
  abbrev W : Type 0
  W = World fl src db

  -- The world before the draw of number k.
  abbrev pub world_at : (W → ℕ × W) → ℕ → W → W
  world_at draw zero w = w
  world_at draw (suc k) w = world_at draw k (draw w).1

  abbrev pub IsAccepted : (W → ℕ × W) → W → Type 0
  IsAccepted draw w = (draw w).0 ≤ last_key fl src db (draw w).1

  -- If the draw of number k is the first that the insert sequence has reached, the loop returns it
  -- within any fuel above k.
  pub key_loop_first :
      (draw : W → ℕ × W) (k fuel : ℕ) (w : W)
      → k < fuel
      → ((j : ℕ)
          → j < k
          → last_key fl src db (world_at draw (suc j) w) < (draw (world_at draw j w)).0)
      → IsAccepted draw (world_at draw k w)
      → key_loop fl src db draw fuel w ≡ done (draw (world_at draw k w))
  unfolding key_loop
  key_loop_first draw k zero w less rejected accepted = absurd (omega arith)
  key_loop_first draw zero (suc fuel) w less rejected accepted = ground arith
  key_loop_first draw (suc k) (suc fuel) w less rejected accepted =
      let later =
        key_loop_first draw k fuel (draw w).1 (omega arith) (λ j lt. rejected (suc j) (omega arith))
          accepted in
      rw (lt→ltb (last_key fl src db (draw w).1) (draw w).0 (rejected 0 (omega arith))) later

  -- What the draws of hot keys leave alone.
  record SameButChooser (w v : W) : Type 0 where
    state : v.state ≡ w.state
    sequence : v.wl.transaction_insert_key_sequence ≡ w.wl.transaction_insert_key_sequence
    table : v.wl.table_name ≡ w.wl.table_name
    ordered : v.wl.ordered_inserts ≡ w.wl.ordered_inserts
    random : v.wl.random_inserts ≡ w.wl.random_inserts
    padding : v.wl.zero_padding ≡ w.wl.zero_padding
