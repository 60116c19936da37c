-- ===== src/Leveldb/Instance/Lifetime.antt =====
-- How the shared handle lives through the calls of Init and Cleanup, in any order.
use my_ycsb_cpp.Prelude.{ℕ, zero, suc, ◌≡◌, refl, ap, ◌∙◌, sym, arith, subst}
use my_ycsb_cpp.Prelude.Int.{pos, ◌+ℤ◌, ◌-ℤ◌}
use my_ycsb_cpp.Prelude.Result.{ok, ok_elim, ok_injective}
use my_ycsb_cpp.Utils.Properties.{Properties, get_property}
use my_ycsb_cpp.Prelude.Bytes.{lit}
use my_ycsb_cpp.Utils.Text.Numbers.{stoi}
use my_ycsb_cpp.Leveldb.Instance.{
  Disk, Shared, Handle, null, opened, deleted, LeveldbDb, acquire, acquire_from, open_shared,
  parse_format, init, release, deleted_handle, cleanup,
}

abbrev pub fresh : Shared
fresh = record { db = null; ref_cnt = pos 0 }

module _ (disk : Disk) (props : Properties) where
  -- What calls of Init that return and of Cleanup, in any order, lead to, with the number of
  -- instances that are initialised, as long as one stays so.
  pub data Lives : ℕ → Shared → disk.State → Type 0 where
    start : (d : disk.State) → Lives 0 fresh d
    by_init :
        {n : ℕ} {sh sh' : Shared} {d d' : disk.State} {inst : LeveldbDb}
        → Lives n sh d
        → init disk props sh d ≡ ok (inst, sh', d')
        → Lives (suc n) sh' d'
    by_cleanup :
        {n : ℕ} {sh : Shared} {d : disk.State}
        → Lives (suc (suc n)) sh d
        → Lives (suc n) (cleanup sh) d

  abbrev pub handle_of : ℕ → Handle
  handle_of zero = null
  handle_of (suc n) = opened

  acquired :
      (sh sh' : Shared) (d d' : disk.State) (inst : LeveldbDb)
      → init disk props sh d ≡ ok (inst, sh', d')
      → acquire disk props sh d ≡ ok (sh', d')
  unfolding init
  acquired sh sh' d d' inst h =
      ok_elim (parse_format (get_property props (lit "leveldb.format") (lit "single"))) _ h
        λ format _ h.
          ok_elim (stoi (get_property props (lit "fieldcount") (lit "10"))) _ h λ fieldcount _ h.
            ok_elim (acquire disk props sh d) _ h λ got e h.
              e ∙ ap ok (ok_injective (λ (r : LeveldbDb × Shared × disk.State). (r.1, r.2)) h)

  acquire_from_lem :
      (n : ℕ) (sh' : Shared) (d d' : disk.State)
      → acquire_from disk (handle_of n) props (pos n) d ≡ ok (sh', d')
      → (sh'.ref_cnt ≡ pos (suc n)) × (sh'.db ≡ opened)
  unfolding acquire_from ◌+ℤ◌
  acquire_from_lem zero sh' d d' h = ok_elim (open_shared disk props d) _ h λ made _ h.
      subst (λ (sh : Shared). (sh.ref_cnt ≡ pos 1) × (sh.db ≡ opened))
        (ok_injective (λ (r : Shared × disk.State). r.0) h) (refl, refl)
  acquire_from_lem (suc n) sh' d d' h =
      subst (λ (sh : Shared). (sh.ref_cnt ≡ pos (suc (suc n))) × (sh.db ≡ opened))
        (ok_injective (λ (r : Shared × disk.State). r.0) h) (ground arith, refl)

  acquire_lem :
      (n : ℕ) (sh sh' : Shared) (d d' : disk.State)
      → sh.ref_cnt ≡ pos n
      → sh.db ≡ handle_of n
      → acquire disk props sh d ≡ ok (sh', d')
      → (sh'.ref_cnt ≡ pos (suc n)) × (sh'.db ≡ opened)
  unfolding acquire
  acquire_lem n sh sh' d d' is_n is_handle h =
      acquire_from_lem n sh' d d' (rw (← is_handle, ← is_n) h)

  minus_one : (n : ℕ) → pos (suc n) -ℤ pos 1 ≡ pos n
  unfolding ◌-ℤ◌
  minus_one n = ground arith

  cleaned : (n : ℕ) (sh : Shared) → sh.ref_cnt ≡ pos (suc n) → cleanup sh ≡ release (pos n) sh.db
  cleaned n sh e =
      let left : sh.ref_cnt -ℤ pos 1 ≡ pos n = ap (λ k. k -ℤ pos 1) e ∙ minus_one n in
      unfold cleanup in ap (λ k. release k sh.db) left

  cleanup_lem :
      (n : ℕ) (sh : Shared)
      → sh.ref_cnt ≡ pos (suc (suc n))
      → ((cleanup sh).ref_cnt ≡ pos (suc n)) × ((cleanup sh).db ≡ sh.db)
  unfolding release
  cleanup_lem n sh e =
      let c = cleaned (suc n) sh e in
      (ap (λ (s : Shared). s.ref_cnt) c, ap (λ (s : Shared). s.db) c)

  -- As long as one instance stays initialised, the counter is the number of instances and the
  -- database is open: the first Init opens it, no Cleanup closes it, and before the first Init the
  -- handle is null.
  pub Lives-handle :
      {n : ℕ} {sh : Shared} {d : disk.State}
      → Lives n sh d
      → (sh.ref_cnt ≡ pos n) × (sh.db ≡ handle_of n)
  Lives-handle (start d) = (refl, refl)
  Lives-handle (by_init {n = n} {sh = sh} {sh' = sh'} {d = d} {d' = d'} {inst = inst} l h) =
      let (is_n, is_handle) = Lives-handle l in
      acquire_lem n sh sh' d d' is_n is_handle (acquired sh sh' d d' inst h)
  Lives-handle (by_cleanup {n = n} {sh = sh} l) =
      let (is_n, is_handle) = Lives-handle l in
      let (count, same) = cleanup_lem n sh is_n in (count, same ∙ is_handle)

  -- The Cleanup of the last instance deletes the database and leaves its pointer: an Init after it
  -- returns, opens nothing, and leaves the instance with the deleted database.
  pub init_after_cleanup :
      {sh sh' : Shared} {d d' : disk.State} {inst : LeveldbDb}
      → Lives 1 sh d
      → init disk props (cleanup sh) d ≡ ok (inst, sh', d')
      → (sh'.db ≡ deleted) × (d' ≡ d)
  init_after_cleanup {sh} {sh'} {d} {d'} {inst} l h =
      let (is_n, is_handle) = Lives-handle l in
      reopen (closed is_n is_handle) (acquired (cleanup sh) sh' d d' inst h)
    where
      closed : sh.ref_cnt ≡ pos 1 → sh.db ≡ opened → (cleanup sh).db ≡ deleted
      closed is_n is_handle =
          ap (λ (s : Shared). s.db) (cleaned 0 sh is_n)
          ∙ unfold release in ap deleted_handle is_handle

      reopen :
          (cleanup sh).db ≡ deleted
          → acquire disk props (cleanup sh) d ≡ ok (sh', d')
          → (sh'.db ≡ deleted) × (d' ≡ d)
      reopen e h =
          let shut : acquire_from disk (cleanup sh).db props (cleanup sh).ref_cnt d ≡ ok (sh', d') =
            unfold acquire in h in
          let again : acquire_from disk deleted props (cleanup sh).ref_cnt d ≡ ok (sh', d') =
            rw e at shut in
          unfold acquire_from in
          (
            sym (ok_injective (λ (r : Shared × disk.State). r.0.db) again),
            sym (ok_injective (λ (r : Shared × disk.State). r.1) again),
          )
