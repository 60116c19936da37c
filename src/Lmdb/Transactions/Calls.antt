-- ===== src/Lmdb/Transactions/Calls.antt =====
-- What the transactions of lmdb/lmdb_db.cc return and commit, where their calls succeed.
use my_ycsb_cpp.Prelude.{
  ◌≡◌, refl, ap, ◌∙◌, List, [], ◌++◌, Option, none, some, All, Bool, true, false, if◌then◌else◌,
}
use my_ycsb_cpp.Prelude.Bytes.{Bytes, lit, bytes_eq}
use my_ycsb_cpp.Prelude.Result.{exception}
use my_ycsb_cpp.Prelude.Outcome.{Outcome, done, thrown, after_done, ◌>>=◌}
use my_ycsb_cpp.Db.{Field, k_ok, k_not_found}
use my_ycsb_cpp.Leveldb.Store.{KvStatus, fine, missing, failed}
use my_ycsb_cpp.Leveldb.Row.{serialize_row}
use my_ycsb_cpp.Leveldb.Row.RoundTrip.{FitsWord, deserialize_row-serialize_row}
use my_ycsb_cpp.Leveldb.Single.{overwrite_all}
use my_ycsb_cpp.Lmdb.Store.{Mdb, MdbLaws, found}
use my_ycsb_cpp.Lmdb.Transactions
use my_ycsb_cpp.Lmdb.Transactions.{checked, read_got}

-- A call that succeeds passes its result on.
pub passed :
    {A B : Type 0} (what : Bytes) (r : KvStatus × A) (f : A → Outcome B)
    → r.0 ≡ fine
    → (checked what r >>= f) ≡ f r.1
passed what (fine, a) f e = refl
passed what (missing text, a) f e = cc
passed what (failed text, a) f e = cc

-- A call that finds nothing ends in an exception.
stopped :
    {A B : Type 0} (what : Bytes) (r : KvStatus × A) (f : A → Outcome B) (text : Bytes)
    → r.0 ≡ missing text
    → (checked what r >>= f) ≡ thrown (exception (what ++ text))
stopped what (fine, a) f text e = cc
stopped what (missing other, a) f text e = cc
stopped what (failed other, a) f text e = cc

module _ (db : Mdb) (laws : MdbLaws db) where
  -- No call fails but a delete of a key that is not there.
  pub record Accepts : Type 0 where
    pub begins : (s : db.State) (rdonly : Bool) → (db.txn_begin s rdonly).0 ≡ fine
    pub puts : (t : db.Txn) (key data_ : Bytes) → (db.put t key data_).0 ≡ fine
    pub dels :
        (t : db.Txn) (key data_ : Bytes) → laws.seen t key ≡ some data_ → (db.del t key).0 ≡ fine
    pub commits : (s : db.State) (t : db.Txn) → (db.txn_commit s t).0 ≡ fine

  abbrev pub begun : db.State → Bool → db.Txn
  begun s rdonly = (db.txn_begin s rdonly).1

  -- The state after one write of a transaction.
  pub after_put : db.State → Bytes → Bytes → db.State
  after_put s key data_ = (db.txn_commit s (db.put (begun s false) key data_).1).1

  pub content-after_put :
      Accepts
      → (s : db.State) (key data_ other : Bytes)
      → laws.content (after_put s key data_) other
        ≡ (if bytes_eq other key then some data_ else laws.content s other)
  unfolding after_put
  content-after_put ok s key data_ other =
      laws.commit_content s _ other (ok.commits s _)
      ∙ laws.put_seen (begun s false) key data_ other (ok.puts _ key data_)
      ∙ ap (λ v. if bytes_eq other key then some data_ else v)
          (laws.begin_seen s false other (ok.begins s false))

  abbrev pub after_del : db.State → Bytes → db.State
  after_del s key = (db.txn_commit s (db.del (begun s false) key).1).1

  pub content-after_del :
      Accepts
      → (s : db.State) (key data_ other : Bytes) → laws.content s key ≡ some data_
      → laws.content (after_del s key) other
        ≡ (if bytes_eq other key then none else laws.content s other)
  content-after_del ok s key data_ other there =
      let seen_there = laws.begin_seen s false key (ok.begins s false) ∙ there in
      laws.commit_content s _ other (ok.commits s _)
      ∙ laws.del_seen (begun s false) key other (ok.dels _ key data_ seen_there)
      ∙ ap (λ v. if bytes_eq other key then none else v)
          (laws.begin_seen s false other (ok.begins s false))

  -- A Get in a transaction that has just begun.
  pub get_begun :
      Accepts
      → (s : db.State) (rdonly : Bool) (key : Bytes)
      → db.get (begun s rdonly) key ≡ found laws.not_found (laws.content s key)
  get_begun ok s rdonly key =
      laws.get_seen (begun s rdonly) key
      ∙ ap (found laws.not_found) (laws.begin_seen s rdonly key (ok.begins s rdonly))

  pub insert_lem :
      Accepts
      → (s : db.State) (key : Bytes) (values : List Field)
      → Transactions.insert db s key values ≡ done (k_ok, after_put s key (serialize_row values))
  unfolding Transactions.insert after_put
  insert_lem ok s key values =
      passed (lit "Insert mdb_txn_begin: ") (db.txn_begin s false) _ (ok.begins s false)
      ∙ passed (lit "Insert mdb_put: ") (db.put (begun s false) key (serialize_row values)) _
          (ok.puts (begun s false) key (serialize_row values))
      ∙ passed (lit "Insert mdb_txn_commit: ")
          (db.txn_commit s (db.put (begun s false) key (serialize_row values)).1) _ (ok.commits s _)

  pub update_lem :
      Accepts
      → (s : db.State) (key : Bytes) (row values : List Field)
      → laws.content s key ≡ some (serialize_row row)
      → All FitsWord row
      → Transactions.update db s key values
        ≡ done (k_ok, after_put s key (serialize_row (overwrite_all row values)))
  unfolding Transactions.update after_put
  update_lem ok s key row values there fit =
      let row' = serialize_row (overwrite_all row values) in
      passed (lit "Update mdb_txn_begin: ") (db.txn_begin s false) _ (ok.begins s false)
      ∙ after_done _ (
          ap (checked (lit "Update mdb_get: "))
            (get_begun ok s false key ∙ ap (found laws.not_found) there))
      ∙ after_done _ (deserialize_row-serialize_row row fit)
      ∙ passed (lit "Update mdb_put: ") (db.put (begun s false) key row') _
          (ok.puts (begun s false) key row')
      ∙ passed (lit "Update mdb_txn_commit: ") (db.txn_commit s (db.put (begun s false) key row').1)
          _ (ok.commits s _)

  pub delete_lem :
      Accepts
      → (s : db.State) (key data_ : Bytes) → laws.content s key ≡ some data_
      → Transactions.delete db s key ≡ done (k_ok, after_del s key)
  unfolding Transactions.delete
  delete_lem ok s key data_ there =
      passed (lit "Delete mdb_txn_begin: ") (db.txn_begin s false) _ (ok.begins s false)
      ∙ passed (lit "Delete mdb_del: ") (db.del (begun s false) key) _ (
          ok.dels (begun s false) key data_
            (laws.begin_seen s false key (ok.begins s false) ∙ there))
      ∙ passed (lit "Delete mdb_txn_commit: ") (db.txn_commit s (db.del (begun s false) key).1) _
          (ok.commits s _)

  -- Where the other calls succeed, an update and a delete of a key that is not there throw
  -- MDB_NOTFOUND as an exception, while a read of it returns kNotFound.
  pub missing_key_throws :
      Accepts
      → (s : db.State) (key : Bytes) (values : List Field) (fields : Option (List Bytes))
      → laws.content s key ≡ none
      → (Transactions.read db s key fields ≡ done (k_not_found, []))
        × (Transactions.update db s key values
            ≡ thrown (exception (lit "Update mdb_get: " ++ laws.not_found)))
        × (Transactions.delete db s key
            ≡ thrown (exception (lit "Delete mdb_del: " ++ laws.not_found)))
  unfolding Transactions.update Transactions.delete Transactions.read
  missing_key_throws ok s key values fields gone =
      let get_gone =
        λ (rdonly : Bool). get_begun ok s rdonly key ∙ ap (found laws.not_found) gone in
      (
        passed (lit "Read mdb_txn_begin: ") (db.txn_begin s true)
              (λ txn. read_got (db.get txn key) fields) (ok.begins s true)
            ∙ ap (λ got. read_got got fields) (get_gone true)
            ∙ (unfold read_got in refl),
        passed (lit "Update mdb_txn_begin: ") (db.txn_begin s false) _ (ok.begins s false)
            ∙ rw (get_gone false) refl,
        passed (lit "Delete mdb_txn_begin: ") (db.txn_begin s false) _ (ok.begins s false)
            ∙ stopped (lit "Delete mdb_del: ") (db.del (begun s false) key) _ laws.not_found (
                laws.del_missing (begun s false) key
                  (laws.begin_seen s false key (ok.begins s false) ∙ gone)),
      )
