-- ===== src/Client/Barrier/Progress.antt =====
-- The barrier when every thread comes to it.
use my_ycsb_cpp.Prelude.{
  ℕ, ◌+◌, ◌≡◌, refl, ap, ◌∙◌, sym, subst, true, List, [], ◌∷◌, ◌++◌, arith, All, ◌⊎◌, inl, inr,
}
use my_ycsb_cpp.Prelude.Int.{pos}
use my_ycsb_cpp.Utils.CountdownLatch.{CountDownLatch, is_open, count_down}
use my_ycsb_cpp.Client.{
  Action, init_db, consume, do_insert, do_transaction, arrive, await, start_timer, cleanup_db,
  finish,
}
use my_ycsb_cpp.Client.Actions.{count, arrivals}
use my_ycsb_cpp.Client.Barrier.{System, Runs, Step, step, Reaches, here, onward, left}
use my_ycsb_cpp.Client.Barrier.Deadlock.{moved, count_down_pos}

-- Behind a wait, a thread does not arrive again.
abbrev pub IsOrdered : List Action → Type 0
IsOrdered [] = Unit
IsOrdered (await ∷ rest) = (count arrivals rest ≡ 0) × IsOrdered rest
IsOrdered (_ ∷ rest) = IsOrdered rest

-- The latch counts the arrivals that are left.
pub record IsFair (s : System) : Type 0 where
  pub is_count : s.warmup_latch.count ≡ pos (left arrivals s.threads)
  pub ordered : All IsOrdered s.threads

-- A thread that can go on whatever the latch.
record Free (threads : List (List Action)) : Type 0 where
  front : List (List Action)
  back : List (List Action)
  a : Action
  rest : List Action
  same : threads ≡ front ++ (a ∷ rest) ∷ back
  goes : (l : CountDownLatch) → (l' : CountDownLatch) × Runs a l l'

-- A thread that waits.
record Waiting (threads : List (List Action)) : Type 0 where
  front : List (List Action)
  back : List (List Action)
  rest : List Action
  same : threads ≡ front ++ (await ∷ rest) ∷ back

abbrev pub IsDone : List (List Action) → Type 0
IsDone = All (λ thread. thread ≡ [])

Free-first :
    (a : Action) (rest : List Action) (threads : List (List Action))
    → ((l : CountDownLatch) → (l' : CountDownLatch) × Runs a l l')
    → Free ((a ∷ rest) ∷ threads)
Free-first a rest threads goes = record {
  front = [];
  back = threads;
  a = a;
  rest = rest;
  same = refl;
  goes = goes;
}

Free-later :
    (thread : List Action) (threads : List (List Action)) → Free threads → Free (thread ∷ threads)
Free-later thread threads f = record {
  front = thread ∷ f.front;
  back = f.back;
  a = f.a;
  rest = f.rest;
  same = ap (◌∷◌ thread) f.same;
  goes = f.goes;
}

Waiting-later :
    (thread : List Action) (threads : List (List Action))
    → Waiting threads
    → Waiting (thread ∷ threads)
Waiting-later thread threads f = record {
  front = thread ∷ f.front;
  back = f.back;
  rest = f.rest;
  same = ap (◌∷◌ thread) f.same;
}

-- Either some thread can go on, or no arrival is left, and then all threads are done or one waits.
survey :
    (threads : List (List Action))
    → All IsOrdered threads
    → Free threads ⊎ ((left arrivals threads ≡ 0) × (IsDone threads ⊎ Waiting threads))
survey [] o = inr (refl, inl tt)
survey ([] ∷ threads) o = elim (survey threads o.1) [
  | inl free ↦ inl (Free-later [] threads free)
  | inr (none_left, inl all_done) ↦ inr (omega (arith, none_left), inl (refl, all_done))
  | inr (none_left, inr waiting) ↦
      inr (omega (arith, none_left), inr (Waiting-later [] threads waiting))
]
survey ((await ∷ rest) ∷ threads) o = elim (survey threads o.1) [
  | inl free ↦ inl (Free-later (await ∷ rest) threads free)
  | inr (none_left, _) ↦ inr (
    omega (arith, none_left, o.0.0),
    inr (record { front = []; back = threads; rest = rest; same = refl }),
  )
]
survey ((arrive ∷ rest) ∷ threads) o =
    inl (Free-first arrive rest threads λ l. ((count_down l).0, refl))
survey ((init_db ∷ rest) ∷ threads) o = inl (Free-first init_db rest threads λ l. (l, refl))
survey ((consume ∷ rest) ∷ threads) o = inl (Free-first consume rest threads λ l. (l, refl))
survey ((do_insert ∷ rest) ∷ threads) o = inl (Free-first do_insert rest threads λ l. (l, refl))
survey ((do_transaction b ∷ rest) ∷ threads) o =
    inl (Free-first (do_transaction b) rest threads λ l. (l, refl))
survey ((start_timer ∷ rest) ∷ threads) o = inl (Free-first start_timer rest threads λ l. (l, refl))
survey ((cleanup_db ∷ rest) ∷ threads) o = inl (Free-first cleanup_db rest threads λ l. (l, refl))
survey ((finish ∷ rest) ∷ threads) o = inl (Free-first finish rest threads λ l. (l, refl))

open_at_zero : (l : CountDownLatch) → l.count ≡ pos 0 → is_open l ≡ true
unfolding is_open
open_at_zero l e = rw e refl

-- A fair system is done or can go on.
IsFair-goes_on : (s : System) → IsFair s → IsDone s.threads ⊎ ((t : System) × Step s t)
IsFair-goes_on s h = elim (survey s.threads h.ordered) [
  | inl f ↦
      let (l', run) = f.goes s.warmup_latch in
      inr (taken f.same (step f.front f.back f.a f.rest s.warmup_latch l' run))
  | inr (none_left, inl all_done) ↦ inl all_done
  | inr (none_left, inr w) ↦
      let open_now = open_at_zero s.warmup_latch (h.is_count ∙ ap pos none_left) in
      inr (
        taken w.same
          (step w.front w.back await w.rest s.warmup_latch s.warmup_latch (open_now, refl)))
]
  where
    taken :
        {threads : List (List Action)} {t : System}
        → s.threads ≡ threads
        → Step (record { threads = threads; warmup_latch = s.warmup_latch }) t
        → (t : System) × Step s t
    taken {t = t} e st = (
      t,
      subst (λ ts. Step (record { threads = ts; warmup_latch = s.warmup_latch }) t) (sym e) st,
    )

count_lem :
    (a : Action) (l l' : CountDownLatch) (after : ℕ)
    → Runs a l l'
    → l.count ≡ pos (arrivals a + after)
    → l'.count ≡ pos after
count_lem arrive l l' after run e =
    ap (λ (k : CountDownLatch). k.count) run ∙ count_down_pos l after (e ∙ ap pos (omega arith))
count_lem await l l' after run e =
    ap (λ (k : CountDownLatch). k.count) run.1 ∙ e ∙ ap pos (omega arith)
count_lem _ l l' after run e = ap (λ (k : CountDownLatch). k.count) run ∙ e ∙ ap pos (omega arith)

IsOrdered-tail : (a : Action) (rest : List Action) → IsOrdered (a ∷ rest) → IsOrdered rest
IsOrdered-tail await rest h = h.1
IsOrdered-tail _ rest h = h

IsOrdered-after :
    (front back : List (List Action)) (a : Action) (rest : List Action)
    → All IsOrdered (front ++ (a ∷ rest) ∷ back)
    → All IsOrdered (front ++ rest ∷ back)
IsOrdered-after [] back a rest h = (IsOrdered-tail a rest h.0, h.1)
IsOrdered-after (thread ∷ front) back a rest h = (h.0, IsOrdered-after front back a rest h.1)

Step-IsFair : (s t : System) → Step s t → IsFair s → IsFair t
Step-IsFair s t (step front back a rest l l' run) h = record {
  is_count =
      count_lem a l l' (left arrivals (front ++ rest ∷ back)) run
        (h.is_count ∙ ap pos (moved arrivals front back a rest));
  ordered = IsOrdered-after front back a rest h.ordered;
}

-- Every action.
abbrev pub every : Action → ℕ
every _ = 1

Step-every : (s t : System) → Step s t → left every s.threads ≡ left every t.threads + 1
Step-every s t (step front back a rest l l' run) = omega (arith, moved every front back a rest)

-- If the latch counts the arrivals that are left and no thread arrives behind a wait, then in every
-- state that the threads reach, all of them are done or some thread can go on, and each action
-- leaves one action fewer, so that all of them end.
pub Reaches-progress :
    (s t : System)
    → IsFair s
    → Reaches s t
    → (IsDone t.threads ⊎ ((u : System) × Step t u))
      × ((u : System) → Step t u → left every t.threads ≡ left every u.threads + 1)
Reaches-progress s t h r = (IsFair-goes_on t (go r), λ u st. Step-every t u st)
  where
    go : {t : System} → Reaches s t → IsFair t
    go here = h
    go (onward {t = u} {u = v} r last_step) = Step-IsFair u v last_step (go r)
