-- ===== src/Workload/Draws.antt =====
-- The draws of keys of CoreWorkload: NextTransactionKeyNum and NextTransactionKeyNumHot of
-- core/core_workload.cc.
use my_ycsb_cpp.Prelude.{ℕ, zero, suc, ltb, if◌then◌else◌}
use my_ycsb_cpp.Prelude.Float.{Float}
use my_ycsb_cpp.Db.{Database}
use my_ycsb_cpp.Workload.Sources.{Sources, chooser_next, sequence_last}
use my_ycsb_cpp.Workload.State.{World, Run, done, stuck}
use my_ycsb_cpp.Workload.Values.{basis}

module _ (fl : Float) (src : Sources fl) (db : Database) where
  open src use {double}

  abbrev M : Type 0 → Type 0
  M = Run fl src db

  unfoldable pub draw_key : World fl src db → ℕ × World fl src db
  unfolding chooser_next
  draw_key w =
      let (v, g, r) = chooser_next fl src w.wl.key_chooser (basis fl src db w.wl) w.rnd in
      (v, record w { wl = record w.wl { key_chooser = g }; rnd = r })

  unfoldable pub draw_hot_key : World fl src db → ℕ × World fl src db
  unfolding chooser_next
  draw_hot_key w =
      let (v, g, r) = chooser_next fl src w.wl.hot_key_chooser (basis fl src db w.wl) w.rnd in
      (v, record w { wl = record w.wl { hot_key_chooser = g }; rnd = r })

  -- The last key of the transactions' insert sequence.
  abbrev pub last_key : World fl src db → ℕ
  last_key w = sequence_last w.wl.transaction_insert_key_sequence

  -- `do { key_num = chooser->Next(); } while (key_num > sequence->Last());`
  unfoldable pub key_loop : (World fl src db → ℕ × World fl src db) → ℕ → M ℕ
  key_loop draw zero w = stuck
  key_loop draw (suc fuel) w =
      let (key, w') = draw w in
      let again = key_loop draw fuel w' in if ltb (last_key w') key then again else done (key, w')

  unfoldable pub next_transaction_key_num : ℕ → M ℕ
  unfolding key_loop draw_key
  next_transaction_key_num fuel = key_loop draw_key fuel

  unfoldable pub next_transaction_key_num_hot : ℕ → M ℕ
  unfolding key_loop draw_hot_key
  next_transaction_key_num_hot fuel = key_loop draw_hot_key fuel
