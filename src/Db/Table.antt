-- ===== src/Db/Table.antt =====
-- What core/db.h promises of a table of records, without the form in which a binding stores them: a
-- record gives each field name a value or none, and the requests are those that CoreWorkload makes,
-- with reads of a whole record or of one field.
pub mod Follows
use my_ycsb_cpp.Prelude.{
  ◌≡◌, refl, ap, ◌∙◌, List, [], ◌∷◌, map, All, Option, none, some, if◌then◌else◌,
}
use my_ycsb_cpp.Prelude.Outcome.{Outcome, done, ◌>>=◌, after_done, done_elim, SameDone}
use my_ycsb_cpp.Prelude.Bytes.{Bytes, bytes_eq}
use my_ycsb_cpp.Db.{Field, Status, k_ok, k_not_found}

abbrev pub Record : Type 0
Record = Bytes → Option Bytes

abbrev pub Table : Type 0
Table = Bytes → Option Record

pub data Request : Type 0 where
  read_all : Bytes → Request
  read_field : Bytes → Bytes → Request
  insert update : Bytes → List Field → Request
  delete : Bytes → Request

-- The record that is no record.
abbrev pub no_fields : Record
no_fields name = none

-- A list of fields as a record: the value of the first field with a name.
abbrev pub value_of : List Field → Record
value_of [] name = none
value_of (field ∷ values) name =
    if bytes_eq field.name name then some field.value else value_of values name

-- What the writes of an update leave as the value of one field: the last value with its name.
abbrev pub written : List Field → Bytes → Option Bytes → Option Bytes
written [] name old = old
written (field ∷ values) name none = none
written (field ∷ values) name (some old) =
    written values name (some (if bytes_eq field.name name then field.value else old))

abbrev pub only : Bytes → Record → Record
only asked r name = if bytes_eq asked name then r name else none

abbrev pub put : Table → Bytes → Option Record → Table
put t key r k = if bytes_eq k key then r else t k

-- The status and the record of a reply, and the table after the request.
abbrev pub answer_read : Table → Option Record → (Record → Record) → (Status × Record) × Table
answer_read t none f = ((k_not_found, no_fields), t)
answer_read t (some r) f = ((k_ok, f r), t)

abbrev pub answer_update : Table → Option Record → Bytes → List Field → (Status × Record) × Table
answer_update t none key values = ((k_not_found, no_fields), t)
answer_update t (some r) key values =
    ((k_ok, no_fields), put t key (some λ name. written values name (r name)))

unfoldable pub answer : Table → Request → (Status × Record) × Table
answer t (read_all key) = answer_read t (t key) (λ r. r)
answer t (read_field key name) = answer_read t (t key) (only name)
answer t (insert key values) = ((k_ok, no_fields), put t key (some (value_of values)))
answer t (update key values) = answer_update t (t key) key values
answer t (delete key) = ((k_ok, no_fields), put t key none)

pub answer_read-table :
    (t : Table) (o : Option Record) (f : Record → Record) → (answer_read t o f).1 ≡ t
answer_read-table t none f = refl
answer_read-table t (some r) f = refl

unfoldable pub answers : Table → List Request → List (Status × Record) × Table
unfolding answer
answers t [] = ([], t)
answers t (request ∷ requests) =
    let (reply, t') = answer t request in
    let (replies, t'') = answers t' requests in (reply ∷ replies, t'')

-- The operations of a binding over its state, with the table's name left off.
pub record Operations (S : Type 0) : Type 0 where
  pub read : S → Bytes → Option (List Bytes) → Outcome ((Status × List Field) × S)
  pub insert : S → Bytes → List Field → Outcome (Status × S)
  pub update : S → Bytes → List Field → Outcome (Status × S)
  pub delete : S → Bytes → Outcome (Status × S)

-- A read that leaves the state as it is.
abbrev pub reading {ℓ} :
    {S : Type ℓ} → S → Outcome (Status × List Field) → Outcome ((Status × List Field) × S)
reading s m = m >>= λ reply. done (reply, s)

-- A request served by a binding: the status, the fields that it read, and the state after it.
unfoldable pub serve :
    {S : Type 0} → Operations S → S → Request → Outcome ((Status × List Field) × S)
serve ops s (read_all key) = ops.read s key none
serve ops s (read_field key name) = ops.read s key (some (name ∷ []))
serve ops s (insert key values) = do r ← ops.insert s key values; done ((r.0, []), r.1)
serve ops s (update key values) = do r ← ops.update s key values; done ((r.0, []), r.1)
serve ops s (delete key) = do r ← ops.delete s key; done ((r.0, []), r.1)

unfoldable pub serve_all :
    {S : Type 0} → Operations S → S → List Request → Outcome (List (Status × List Field) × S)
unfolding serve
serve_all ops s [] = done ([], s)
serve_all ops s (request ∷ requests) = do
  first ← serve ops s request
  rest ← serve_all ops first.1 requests
  done (first.0 ∷ rest.0, rest.1)

-- A reply, without the order of its fields.
abbrev pub view : Status × List Field → Status × Record
view (status, values) = (status, value_of values)

-- A binding keeps to the table on one request, from states that a relation ties to a table.
abbrev pub Serves :
    {S : Type 0} → Operations S → (S → Table → Type 0) → S → Table → Request → Type 0
Serves {S} ops Represents s t request =
    (reply : Status × List Field) × (s' : S) × (serve ops s request ≡ done (reply, s'))
    × (view reply ≡ (answer t request).0)
    × Represents s' (answer t request).1

-- Requests that each fit the table that they meet.
abbrev pub AllAlong : (Table → Request → Type 0) → Table → List Request → Type 0
AllAlong Fits t [] = Unit
AllAlong Fits t (request ∷ requests) = Fits t request × AllAlong Fits (answer t request).1 requests

-- Requests in a row, from requests one by one.
pub serve_all-along :
    {S : Type 0} (ops : Operations S) (Represents : S → Table → Type 0)
    (Fits : Table → Request → Type 0)
    → ((s : S) (t : Table) (request : Request)
        → Represents s t
        → Fits t request
        → Serves ops Represents s t request)
    → (s : S) (t : Table) (requests : List Request) → Represents s t
    → AllAlong Fits t requests
    → (replies : List (Status × List Field)) × (s' : S) × (serve_all ops s requests
        ≡ done (replies, s'))
      × (map view replies ≡ (answers t requests).0)
      × Represents s' (answers t requests).1
unfolding serve_all answers
serve_all-along ops Represents Fits one s t [] h f = ([], s, refl, refl, h)
serve_all-along ops Represents Fits one s t (request ∷ requests) h f =
    let (reply, s', e, same, h') = one s t request h f.0 in
    let (replies, s'', e', same', h'') =
      serve_all-along ops Represents Fits one s' (answer t request).1 requests h' f.1 in
    (
      reply ∷ replies,
      s'',
      after_done _ e ∙ after_done _ e',
      ap (λ r. r ∷ map view replies) same ∙ ap (◌∷◌ (answer t request).0) same',
      h'',
    )

all_along :
    (Fits : Request → Type 0) (t : Table) (requests : List Request)
    → All Fits requests
    → AllAlong (λ _. Fits) t requests
all_along Fits t [] f = tt
all_along Fits t (request ∷ requests) f = (f.0, all_along Fits (answer t request).1 requests f.1)

-- The same, for requests that fit whatever the table is.
pub serve_all-answers :
    {S : Type 0} (ops : Operations S) (Represents : S → Table → Type 0) (Fits : Request → Type 0)
    → ((s : S) (t : Table) (request : Request)
        → Represents s t
        → Fits request
        → Serves ops Represents s t request)
    → (s : S) (t : Table) (requests : List Request) → Represents s t
    → All Fits requests
    → (replies : List (Status × List Field)) × (s' : S) × (serve_all ops s requests
        ≡ done (replies, s'))
      × (map view replies ≡ (answers t requests).0)
      × Represents s' (answers t requests).1
serve_all-answers ops Represents Fits one s t requests h f =
    serve_all-along ops Represents (λ _. Fits) one s t requests h (all_along Fits t requests f)
