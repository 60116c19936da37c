-- ===== src/Workload/State.antt =====
-- The fields of CoreWorkload, and the way its operations run: over the workload, the randomness
-- and the state of a database. An operation ends, or throws, or does what C++ leaves undefined
-- (the read of a variable that was never written, a cast to the wrong class), or has not ended
-- when the fuel of its loop is used up.
use my_ycsb_cpp.Prelude.{ℕ, Bool, ◌≡◌, ap}
use my_ycsb_cpp.Prelude.Int.{ℤ}
use my_ycsb_cpp.Prelude.Bytes.{Bytes}
use my_ycsb_cpp.Prelude.Float.{Float}
pub use my_ycsb_cpp.Prelude.Outcome.{Outcome, done, thrown, undefined, stuck}
use my_ycsb_cpp.Generators.Discrete.{DiscreteGenerator}
use my_ycsb_cpp.Measurements.{Operation}
use my_ycsb_cpp.Db.{Database}
use my_ycsb_cpp.Workload.Sources.{Sources, Chooser, InsertSequence, Sequence}

pub record Workload (fl : Float) (src : Sources fl) : Type 0 where
  pub table_name : Bytes
  pub field_count : ℤ
  pub field_prefix : Bytes
  pub read_all_fields : Bool
  pub write_all_fields : Bool
  pub field_len_generator : Chooser fl src
  pub op_chooser : DiscreteGenerator fl Operation
  pub warmup_op_chooser : DiscreteGenerator fl Operation
  pub key_chooser : Chooser fl src
  pub hot_key_chooser : Chooser fl src
  pub field_chooser : Chooser fl src
  pub scan_len_chooser : Chooser fl src
  pub insert_key_sequence : InsertSequence
  pub transaction_insert_key_sequence : Sequence
  pub ordered_inserts : Bool
  pub random_inserts : Bool
  pub record_count : ℕ
  pub zero_padding : ℤ
  pub hot_data_ratio : fl.F
  pub warmup_ratio : fl.F

pub record World (fl : Float) (src : Sources fl) (db : Database) : Type 0 where
  pub wl : Workload fl src
  pub rnd : src.R
  pub state : db.State

abbrev pub Run : (fl : Float) → Sources fl → Database → Type 0 → Type 0
Run fl src db A = World fl src db → Outcome (A × World fl src db)

module _ {fl : Float} {src : Sources fl} {db : Database} where
  -- What follows an operation that ended.
  abbrev pub bind :
      {A B : Type 0}
      → Outcome (A × World fl src db)
      → (A → Run fl src db B)
      → Outcome (B × World fl src db)
  bind (done (a, w)) f = f a w
  bind (thrown e) f = thrown e
  bind undefined f = undefined
  bind stuck f = stuck

  infixl 5 ◌>>=◌
  abbrev pub ◌>>=◌ : {A B : Type 0} → Run fl src db A → (A → Run fl src db B) → Run fl src db B
  ◌>>=◌ m f w = bind (m w) f

  abbrev pub pure : {A : Type 0} → A → Run fl src db A
  pure a w = done (a, w)

  pub bind_done :
      {A B : Type 0} (m : Run fl src db A) (f : A → Run fl src db B) (w : World fl src db) {a : A}
      {v : World fl src db}
      → m w ≡ done (a, v)
      → (m >>= f) w ≡ f a v
  bind_done m f w e = ap (λ o. bind o f) e
