-- ===== src/Db/Factory.antt =====
-- The class DBFactory of core/db_factory.cc: the registry of creators, and the wrapper around the
-- database that is made.
use my_ycsb_cpp.Prelude.{◌≡◌, refl, List, [], ◌∷◌, Option, none, some, if◌then◌else◌, arith}
use my_ycsb_cpp.Prelude.Int.{ℤ}
use my_ycsb_cpp.Prelude.Bytes.{Bytes, lit, bytes_eq, bytes_eq_iff}
use my_ycsb_cpp.Utils.Properties.{Properties, get_property}
use my_ycsb_cpp.Measurements.{BasicMeasurements}
use my_ycsb_cpp.Db.Wrapper.{Counts}

module _ {ℓ} {Creator : Type ℓ} where
  -- `Registry()[db_name] = db_creator`
  unfoldable pub register_db : List (Bytes × Creator) → Bytes → Creator → List (Bytes × Creator)
  unfolding bytes_eq
  register_db [] db_name creator = (db_name, creator) ∷ []
  register_db ((name, c) ∷ registry) db_name creator =
      if bytes_eq name db_name
      then (name, creator) ∷ registry
      else (name, c) ∷ register_db registry db_name creator

  unfoldable pub find_creator : List (Bytes × Creator) → Bytes → Option Creator
  unfolding bytes_eq
  find_creator [] db_name = none
  find_creator ((name, c) ∷ registry) db_name =
      if bytes_eq name db_name then some c else find_creator registry db_name

  -- The creator that is called, and what the wrapper around its database starts with; `none` for
  -- the null pointer.
  unfoldable pub create_db :
      List (Bytes × Creator) → Properties → BasicMeasurements → ℤ → Option (Creator × Counts)
  unfolding get_property find_creator
  create_db registry props measurements warmup_ops =
      elim (find_creator registry (get_property props (lit "dbname") (lit "basic"))) [
        | none ↦ none
        | some creator ↦ some (
          creator,
          record { warmup_ops = warmup_ops; operation_count = 0; measurements = measurements },
        )
      ]

  -- A name finds the creator that was registered for it last.
  find_creator-register_db :
      (registry : List (Bytes × Creator)) (name : Bytes) (creator : Creator) (k : Bytes)
      → find_creator (register_db registry name creator) k
        ≡ (if bytes_eq name k then some creator else find_creator registry k)
  unfolding find_creator register_db
  find_creator-register_db [] name creator k = refl
  find_creator-register_db ((j, c) ∷ registry) name creator k = ground (
    arith,
    bytes_eq_iff j name,
    bytes_eq_iff name k,
    bytes_eq_iff j k,
    find_creator-register_db registry name creator k,
  )

  -- The name `dbname` makes the database whose creator was registered for it last, in a wrapper that
  -- starts with no operation, whatever was registered for other names; a name that nobody registered
  -- makes none.
  pub create_db-register_db :
      (registry : List (Bytes × Creator)) (name : Bytes) (creator : Creator) (props : Properties)
      (measurements : BasicMeasurements) (warmup_ops : ℤ)
      → (create_db (register_db registry name creator) props measurements warmup_ops ≡ (
          if bytes_eq name (get_property props (lit "dbname") (lit "basic"))
          then some (
            creator,
            record { warmup_ops = warmup_ops; operation_count = 0; measurements = measurements },
          )
          else create_db registry props measurements warmup_ops))
        × (create_db [] props measurements warmup_ops ≡ none)
  unfolding create_db
  create_db-register_db registry name creator props measurements warmup_ops =
      let asked = get_property props (lit "dbname") (lit "basic") in
      let e = find_creator-register_db registry name creator asked in
      (ground (arith, e), unfold find_creator in refl)
