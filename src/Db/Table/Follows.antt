-- ===== src/Db/Table/Follows.antt =====
-- Bindings of which one returns whatever the other returns.
use my_ycsb_cpp.Prelude.{◌≡◌, ◌∙◌, List, [], ◌∷◌, Option, none, some}
use my_ycsb_cpp.Prelude.Outcome.{Outcome, done, after_done, done_elim, SameDone}
use my_ycsb_cpp.Prelude.Bytes.{Bytes}
use my_ycsb_cpp.Db.{Field, Status}
use my_ycsb_cpp.Db.Table.{
  Request, read_all, read_field, insert, update, delete, Operations, serve, reading,
}

pub follow_reading :
    {S : Type 0} (s : S) (m m' : Outcome (Status × List Field))
    → SameDone m m'
    → (r : (Status × List Field) × S) → reading s m ≡ done r
    → reading s m' ≡ done r
follow_reading s m m' same r e = done_elim m _ e λ a p q. after_done _ (same.0 a p) ∙ q

-- Whatever the one binding returns, the other returns.
pub record Follows (S : Type 0) (ops ops' : Operations S) : Type 0 where
  pub read :
      (s : S) (key : Bytes) (fields : Option (List Bytes)) (r : (Status × List Field) × S)
      → ops.read s key fields ≡ done r
      → ops'.read s key fields ≡ done r
  pub insert :
      (s : S) (key : Bytes) (values : List Field) (r : Status × S)
      → ops.insert s key values ≡ done r
      → ops'.insert s key values ≡ done r
  pub update :
      (s : S) (key : Bytes) (values : List Field) (r : Status × S)
      → ops.update s key values ≡ done r
      → ops'.update s key values ≡ done r
  pub delete :
      (s : S) (key : Bytes) (r : Status × S)
      → ops.delete s key ≡ done r
      → ops'.delete s key ≡ done r

pub serve-Follows :
    {S : Type 0} (ops ops' : Operations S) (s : S) (request : Request)
    (r : (Status × List Field) × S)
    → Follows S ops ops'
    → serve ops s request ≡ done r
    → serve ops' s request ≡ done r
unfolding serve
serve-Follows ops ops' s (read_all key) r f e = f.read s key none r e
serve-Follows ops ops' s (read_field key name) r f e = f.read s key (some (name ∷ [])) r e
serve-Follows ops ops' s (insert key values) r f e =
    done_elim (ops.insert s key values) _ e λ a p q. after_done _ (f.insert s key values a p) ∙ q
serve-Follows ops ops' s (update key values) r f e =
    done_elim (ops.update s key values) _ e λ a p q. after_done _ (f.update s key values a p) ∙ q
serve-Follows ops ops' s (delete key) r f e =
    done_elim (ops.delete s key) _ e λ a p q. after_done _ (f.delete s key a p) ∙ q
