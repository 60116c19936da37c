-- ===== src/Lmdb/Instance.antt =====
-- Init and Cleanup of lmdb/lmdb_db.cc, and what all instances share. Both run under one mutex, so
-- that each is one step. The environment is the state of a parameter.
use my_ycsb_cpp.Prelude.{
  ℕ, zero, suc, ◌≡◌, refl, ap, ◌∙◌, not, List, [], ◌∷◌, ◌++◌, if◌then◌else◌, arith,
}
use my_ycsb_cpp.Prelude.Int.{ℤ, pos, negsuc, ◌+ℤ◌, ◌-ℤ◌}
use my_ycsb_cpp.Prelude.Bytes.{Bytes, lit, bytes_eq}
use my_ycsb_cpp.Prelude.Result.{Result, ok, err, exception, require, ◌>>=◌}
use my_ycsb_cpp.Utils.Text.Numbers.{stoi, stoul}
use my_ycsb_cpp.Utils.Properties.{Properties, get_property}
use my_ycsb_cpp.Workload.Builders.{u64_of_int}
use my_ycsb_cpp.Leveldb.Store.{KvStatus}
use my_ycsb_cpp.Leveldb.Instance.{checked_status}

pub data Flag : Type 0 where
  nosync nometasync nordahead writemap mapasync : Flag

-- What mkdir returns: zero, EEXIST, or another errno with its strerror.
pub data Mkdir : Type 0 where
  made exists : Mkdir
  refused : Bytes → Mkdir

-- The calls on the environment, over its state.
pub record Env : Type 1 where
  pub State : Type 0
  pub env_create : State → KvStatus × State
  pub env_set_mapsize : State → ℕ → KvStatus × State
  pub mkdir : State → Bytes → Mkdir × State
  pub env_open : State → Bytes → List Flag → KvStatus × State
  pub txn_begin : State → KvStatus × State
  pub open_dbi : State → KvStatus × State
  pub txn_commit : State → KvStatus × State
  pub close : State → State

pub record Shared : Type 0 where
  pub field_count : ℕ
  pub field_prefix : Bytes
  pub ref_cnt : ℤ

-- `if (props.GetProperty(name, "false") == "true") env_opt |= flag;`
unfoldable pub flag_of : Properties → Bytes → Flag → List Flag
unfolding get_property bytes_eq
flag_of props name flag =
    if bytes_eq (get_property props name (lit "false")) (lit "true") then flag ∷ [] else []

unfoldable pub env_options : Properties → List Flag
unfolding flag_of
env_options props =
    flag_of props (lit "lmdb.nosync") nosync
    ++ (flag_of props (lit "lmdb.nometasync") nometasync
        ++ (flag_of props (lit "lmdb.noreadahead") nordahead
            ++ (flag_of props (lit "lmdb.writemap") writemap
                ++ flag_of props (lit "lmdb.mapasync") mapasync)))

-- `if (ret && errno != EEXIST) throw ...;`
abbrev pub checked_mkdir : {A : Type 0} → Mkdir × A → Result A
checked_mkdir (made, a) = ok a
checked_mkdir (exists, a) = ok a
checked_mkdir (refused text, a) = err (exception (lit "Init mkdir: " ++ text))

module _ (env : Env) where
  -- Init behind the options, by the calls it makes. `map_size >= 0` always holds of a size_t.
  unfoldable pub open_env : Properties → env.State → Result env.State
  unfolding env_options get_property bytes_eq stoul
  open_env props e = do
    e₁ ← checked_status (lit "Init mdb_env_create: ") (env.env_create e)
    map_size ← stoul (get_property props (lit "lmdb.mapsize") (lit "-1"))
    e₂ ← checked_status (lit "Init mdb_env_set_mapsize: ") (env.env_set_mapsize e₁ map_size)
    let db_path = get_property props (lit "lmdb.dbpath") []
    _ ← require (not (bytes_eq db_path [])) (exception (lit "LMDB db path is missing"))
    e₃ ← checked_mkdir (env.mkdir e₂ db_path)
    e₄ ← checked_status (lit "Init mdb_env_open: ") (env.env_open e₃ db_path (env_options props))
    e₅ ← checked_status (lit "Init mdb_txn_begin: ") (env.txn_begin e₄)
    e₆ ← checked_status (lit "Init mdb_open: ") (env.open_dbi e₅)
    checked_status (lit "Init mdb_txn_commit: ") (env.txn_commit e₆)

  -- What Init leaves shared, with how it ends: an exception leaves the counter counted up.
  unfoldable pub first_init : Properties → Shared → env.State → Shared × Result env.State
  unfolding open_env get_property stoi
  first_init props sh e = elim (stoi (get_property props (lit "fieldcount") (lit "10"))) [
    | err thrown ↦ (sh, err thrown)
    | ok n ↦ (
      record sh {
        field_count = u64_of_int n;
        field_prefix = get_property props (lit "fieldnameprefix") (lit "field");
      },
      open_env props e,
    )
  ]

  -- `if (ref_cnt_++) return;`, by the counter before
  unfoldable pub init_from : ℤ → Properties → Shared → env.State → Shared × Result env.State
  unfolding first_init
  init_from (pos zero) props sh e = first_init props sh e
  init_from ref_cnt props sh e = (sh, ok e)

  unfoldable pub init : Properties → Shared → env.State → Shared × Result env.State
  unfolding init_from ◌+ℤ◌
  init props sh e = init_from sh.ref_cnt props (record sh { ref_cnt = sh.ref_cnt +ℤ pos 1 }) e

  -- `if (--ref_cnt_) return;`, by the counter that is left
  unfoldable pub release : ℤ → env.State → env.State
  release (pos zero) e = env.close e
  release ref_cnt e = e

  unfoldable pub cleanup : Shared → env.State → Shared × env.State
  unfolding release ◌-ℤ◌
  cleanup sh e = let left = sh.ref_cnt -ℤ pos 1 in (record sh { ref_cnt = left }, release left e)

  first_init-ref_cnt :
      (props : Properties) (sh : Shared) (e : env.State)
      → (first_init props sh e).0.ref_cnt ≡ sh.ref_cnt
  unfolding first_init
  first_init-ref_cnt props sh e = both (stoi (get_property props (lit "fieldcount") (lit "10")))
    where
      both :
          (r : Result ℤ)
          → (Shared.ref_cnt
              (elim r as (λ x. Shared × Result env.State) [
                | err thrown ↦ (sh, err thrown)
                | ok n ↦ (
                  record sh {
                    field_count = u64_of_int n;
                    field_prefix = get_property props (lit "fieldnameprefix") (lit "field");
                  },
                  open_env props e,
                )
              ]).0)
            ≡ sh.ref_cnt
      both (err thrown) = refl
      both (ok n) = refl

  init_from-ref_cnt :
      (ref_cnt : ℤ) (props : Properties) (sh : Shared) (e : env.State)
      → (init_from ref_cnt props sh e).0.ref_cnt ≡ sh.ref_cnt
  unfolding init_from
  init_from-ref_cnt (pos zero) props sh e = first_init-ref_cnt props sh e
  init_from-ref_cnt (pos (suc n)) props sh e = refl
  init_from-ref_cnt (negsuc n) props sh e = refl

  init_from-later :
      (ref_cnt : ℤ) (props : Properties) (sh : Shared) (e : env.State)
      → ref_cnt ≡ pos 1
      → (init_from ref_cnt props sh e).1 ≡ ok e
  unfolding init_from
  init_from-later (pos zero) props sh e later = absurd (ground arith)
  init_from-later (pos (suc n)) props sh e later = refl
  init_from-later (negsuc n) props sh e later = refl

  -- An Init that is the first returns or throws as the opening of the environment does, and counts
  -- in either case: another Init behind it, whatever its properties, returns at once and leaves the
  -- environment as it finds it, also if the first one threw and nothing is open.
  pub init_after_init :
      (props props' : Properties) (sh : Shared) (e e' : env.State)
      → sh.ref_cnt ≡ pos 0
      → (init props' (init props sh e).0 e').1 ≡ ok e'
  unfolding init
  init_after_init props props' sh e e' none_yet =
      let counted =
        init_from-ref_cnt sh.ref_cnt props (record sh { ref_cnt = sh.ref_cnt +ℤ pos 1 }) e in
      init_from-later (init props sh e).0.ref_cnt props' _ e'
        (counted ∙ (unfold ◌+ℤ◌ in ap (λ c. c +ℤ pos 1) none_yet))
