-- ===== src/Workload/Values.antt =====
-- BuildValues, BuildSingleValue and the draws that they make, of core/core_workload.cc.
use my_ycsb_cpp.Prelude.{ℕ, zero, suc, ◌+◌, List, [], ◌∷◌, ◌==◌, if◌then◌else◌}
use my_ycsb_cpp.Prelude.Int.{pos_part}
use my_ycsb_cpp.Prelude.Bytes.{Bytes}
use my_ycsb_cpp.Prelude.Float.{Float}
use my_ycsb_cpp.Generators.RandomByte
use my_ycsb_cpp.Generators.RandomByte.{RandomByte}
use my_ycsb_cpp.Db.{Database, Field}
use my_ycsb_cpp.Workload.Keys.{field_name}
use my_ycsb_cpp.Workload.Sources.{Sources, chooser_next, sequence_last}
use my_ycsb_cpp.Workload.State.{Workload, Run, done, ◌>>=◌, pure}

module _ (fl : Float) (src : Sources fl) where
  open src use {R, int}

  -- std::generate_n over one RandomByteGenerator, which draws a number when its buffer is used up.
  unfoldable pub random_bytes : ℕ → RandomByte → R → Bytes × R
  unfolding RandomByte.next
  random_bytes zero g r = ([], r)
  random_bytes (suc len) g r =
      let (n, drawn) = int r in
      let (b, g') = RandomByte.next g n in
      let (bs, r') = random_bytes len g' (if g.off == 6 then drawn else r) in (b ∷ bs, r')

module _ (fl : Float) (src : Sources fl) (db : Database) where
  abbrev pub basis : Workload fl src → ℕ
  basis wl = sequence_last wl.transaction_insert_key_sequence

  unfoldable pub draw_field_len : Run fl src db ℕ
  unfolding chooser_next
  draw_field_len w =
      let (v, g, r) = chooser_next fl src w.wl.field_len_generator (basis w.wl) w.rnd in
      done (v, record w { wl = record w.wl { field_len_generator = g }; rnd = r })

  unfoldable pub draw_field : Run fl src db ℕ
  unfolding chooser_next
  draw_field w =
      let (v, g, r) = chooser_next fl src w.wl.field_chooser (basis w.wl) w.rnd in
      done (v, record w { wl = record w.wl { field_chooser = g }; rnd = r })

  unfoldable pub draw_bytes : ℕ → Run fl src db Bytes
  unfolding random_bytes
  draw_bytes len w =
      let (bs, r) = random_bytes fl src len RandomByte.new w.rnd in done (bs, record w { rnd = r })

  -- NextFieldName
  unfoldable pub next_field_name : Run fl src db Bytes
  unfolding draw_field field_name
  next_field_name = do
    i ← draw_field
    prefix ← λ w. done (w.wl.field_prefix, w)
    pure (field_name prefix i)

  -- The loop of BuildValues, with the rounds left before `i` reaches field_count_.
  unfoldable pub build_fields : ℕ → ℕ → Run fl src db (List Field)
  unfolding draw_field_len draw_bytes field_name
  build_fields zero i = pure []
  build_fields (suc rounds) i = do
    prefix ← λ w. done (w.wl.field_prefix, w)
    len ← draw_field_len
    bytes ← draw_bytes len
    rest ← build_fields rounds (i + 1)
    pure (record { name = field_name prefix i; value = bytes } ∷ rest)

  unfoldable pub build_values : Run fl src db (List Field)
  unfolding build_fields
  build_values w = build_fields (pos_part w.wl.field_count) 0 w

  unfoldable pub build_single_value : Run fl src db (List Field)
  unfolding next_field_name draw_field_len draw_bytes
  build_single_value = do
    name ← next_field_name
    len ← draw_field_len
    bytes ← draw_bytes len
    pure (record { name = name; value = bytes } ∷ [])
