-- ===== src/Client/Actions.antt =====
-- What a client thread does over its loop.
use my_ycsb_cpp.Prelude.{
  ℕ, zero, suc, ◌+◌, ◌-◌, ◌≡◌, refl, ◌∙◌, Bool, true, false, ◌*◌, List, [], ◌∷◌, ltb, if◌then◌else◌,
  arith, min,
}
use my_ycsb_cpp.Prelude.Int.{ℤ, pos, pos_part}
use my_ycsb_cpp.Client.{
  Action, do_insert, do_transaction, init_db, consume, start_timer, plain_loop, client_thread,
  arrive, await, cleanup_db, finish, when, warmup_loop, client_thread_with_warmup,
}

-- How often each kind of action occurs.
abbrev pub warmups : Action → ℕ
warmups (do_transaction in_warmup) = if in_warmup then 1 else 0
warmups _ = 0

abbrev pub operations : Action → ℕ
operations (do_transaction in_warmup) = 1
operations do_insert = 1
operations _ = 0

abbrev pub arrivals : Action → ℕ
arrivals arrive = 1
arrivals _ = 0

abbrev pub waits : Action → ℕ
waits await = 1
waits _ = 0

abbrev pub transactions : Action → ℕ
transactions (do_transaction in_warmup) = 1
transactions _ = 0

abbrev pub inserts : Action → ℕ
inserts do_insert = 1
inserts _ = 0

abbrev pub inits : Action → ℕ
inits init_db = 1
inits _ = 0

abbrev pub cleanups : Action → ℕ
cleanups cleanup_db = 1
cleanups _ = 0

abbrev pub count : (Action → ℕ) → List Action → ℕ
count f [] = 0
count f (a ∷ as_left) = f a + count f as_left

count-when :
    (f : Action → ℕ) (b : Bool) (a : Action) (rest : List Action)
    → count f (when b a rest) ≡ (if b then f a else 0) + count f rest
count-when f b a rest = ground arith

-- Whether a loop from `i` with some rounds left comes to the end of the warmup.
abbrev pub meets : ℕ → ℕ → ℕ → ℕ
meets rounds i w = if ltb w i then 0 else if ltb w (i + rounds) then 1 else 0

pub count-warmup_loop :
    (rounds i w : ℕ) (limited : Bool) (rest : List Action)
    → let actions = warmup_loop rounds i false limited (pos w) rest in
      (count operations actions ≡ rounds + count operations rest)
      × (count warmups actions ≡ min (i + rounds) w - min i w + count warmups rest)
      × (count arrivals actions ≡ meets rounds i w + count arrivals rest)
      × (count waits actions ≡ meets rounds i w + count waits rest)
unfolding warmup_loop
count-warmup_loop zero i w limited rest = ground arith
count-warmup_loop (suc rounds) i w limited rest =
    let ih = count-warmup_loop rounds (i + 1) w limited rest in
    (ground (arith, ih), ground (arith, ih), ground (arith, ih), ground (arith, ih))

-- A transaction thread with n operations and a warmup of w does n operations, the first of them,
-- min(n, w) in number, in warmup; it arrives at the barrier and waits there once if w < n, and
-- never if w is n or more.
pub client_thread_with_warmup_lem :
    (n w : ℕ) (init cleanup limited : Bool)
    → let run = client_thread_with_warmup (pos n) false init cleanup (pos w) limited in
      (run.1 ≡ n)
      × (count operations run.0 ≡ n)
      × (count warmups run.0 ≡ min n w)
      × (count arrivals run.0 ≡ (if ltb w n then 1 else 0))
      × (count waits run.0 ≡ (if ltb w n then 1 else 0))
unfolding client_thread_with_warmup
client_thread_with_warmup_lem n w init cleanup limited =
    let h = count-warmup_loop n 0 w limited (when cleanup cleanup_db (finish ∷ [])) in
    (refl, ground (arith, h), ground (arith, h), ground (arith, h), ground (arith, h))

-- A kind of action that the loops do not have, but for an operation that counts as `k`.
pub count-warmup_loop-only :
    (f : Action → ℕ) (k rounds i : ℕ) (limited : Bool) (w : ℤ) (rest : List Action)
    → f consume ≡ 0
    → f arrive ≡ 0
    → f await ≡ 0
    → f start_timer ≡ 0
    → ((in_warmup : Bool) → f (do_transaction in_warmup) ≡ k)
    → count f (warmup_loop rounds i false limited w rest) ≡ rounds * k + count f rest
unfolding warmup_loop
count-warmup_loop-only f k zero i limited w rest c a b t o = omega arith
count-warmup_loop-only f k (suc rounds) i limited w rest c a b t o =
    let ih = count-warmup_loop-only f k rounds (i + 1) limited w rest c a b t o in
    ground (arith, ih, c, a, b, t, o true, o false)

pub count-plain_loop-only :
    (f : Action → ℕ) (k rounds : ℕ) (rest : List Action)
    → f do_insert ≡ k
    → count f (plain_loop rounds true false rest) ≡ rounds * k + count f rest
unfolding plain_loop
count-plain_loop-only f k zero rest o = omega arith
count-plain_loop-only f k (suc rounds) rest o =
    ground (arith, count-plain_loop-only f k rounds rest o, o)

-- A thread of the transaction phase opens its database once if it is to, closes it once, does its
-- operations, and inserts nothing; a thread of the load phase likewise, with inserts.
pub count-transaction_thread :
    (n w : ℤ) (init limited : Bool)
    → let actions = (client_thread_with_warmup n false init true w limited).0 in
      (count inits actions ≡ (if init then 1 else 0))
      × (count cleanups actions ≡ 1)
      × (count transactions actions ≡ pos_part n)
      × (count inserts actions ≡ 0)
unfolding client_thread_with_warmup
count-transaction_thread n w init limited =
    let rest = cleanup_db ∷ finish ∷ [] in
    let loop = warmup_loop (pos_part n) 0 false limited w rest in
    let only =
      λ (f : Action → ℕ) (k : ℕ). count-warmup_loop-only f k (pos_part n) 0 limited w rest in
    (
      count-when inits init init_db loop
          ∙ ground (arith, only inits 0 refl refl refl refl (λ b. refl)),
      count-when cleanups init init_db loop
          ∙ ground (arith, only cleanups 0 refl refl refl refl (λ b. refl)),
      count-when transactions init init_db loop
          ∙ ground (arith, only transactions 1 refl refl refl refl (λ b. refl)),
      count-when inserts init init_db loop
          ∙ ground (arith, only inserts 0 refl refl refl refl (λ b. refl)),
    )

pub count-load_thread :
    (n : ℤ) (cleanup : Bool)
    → let actions = (client_thread n true true cleanup false).0 in
      (count inits actions ≡ 1)
      × (count cleanups actions ≡ (if cleanup then 1 else 0))
      × (count transactions actions ≡ 0)
      × (count inserts actions ≡ pos_part n)
unfolding client_thread
count-load_thread n cleanup =
    let rest = when cleanup cleanup_db (finish ∷ []) in
    let only = λ (f : Action → ℕ) (k : ℕ). count-plain_loop-only f k (pos_part n) rest in
    (
      ground (arith, only inits 0 refl),
      ground (arith, only cleanups 0 refl),
      ground (arith, only transactions 0 refl),
      ground (arith, only inserts 1 refl),
    )
