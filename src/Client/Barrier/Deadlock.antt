-- ===== src/Client/Barrier/Deadlock.antt =====
-- The barrier when one thread never comes to it.
use my_ycsb_cpp.Prelude.{
  ℕ, zero, suc, ◌+◌, ◌<◌, ◌≡◌, refl, ap, ◌∙◌, sym, false, List, [], ◌∷◌, ◌++◌, arith,
}
use mathlib.Core.Bool.{true≢false}
use my_ycsb_cpp.Prelude.Int.{pos, ◌-ℤ◌, -ℤ-pos}
use my_ycsb_cpp.Utils.CountdownLatch.{CountDownLatch, is_open, count_down}
use my_ycsb_cpp.Client.{Action, arrive, await}
use my_ycsb_cpp.Client.Actions.{arrivals, waits}
use my_ycsb_cpp.Client.Barrier.{System, Runs, Step, step, Reaches, here, onward, left}

pub left-append :
    (f : Action → ℕ) (xs ys : List (List Action)) → left f (xs ++ ys) ≡ left f xs + left f ys
left-append f [] ys = omega arith
left-append f (x ∷ xs) ys = omega (arith, left-append f xs ys)

pub count_down_pos :
    (l : CountDownLatch) (c : ℕ) → l.count ≡ pos (suc c) → (count_down l).0.count ≡ pos c
unfolding count_down
count_down_pos l c e =
    ap (λ k. k -ℤ pos 1) e ∙ -ℤ-pos (suc c) 1 (omega arith) ∙ ap pos (omega arith)

-- The latch counts more than the arrivals that are left.
pub record IsShort (s : System) : Type 0 where
  pub counter : ℕ
  pub is_count : s.warmup_latch.count ≡ pos counter
  pub short : left arrivals s.threads < counter

closed : (l : CountDownLatch) (c : ℕ) → l.count ≡ pos (suc c) → is_open l ≡ false
unfolding is_open
closed l c e = rw e (ground arith)

-- What one action leaves of the arrivals and the waits.
pub moved :
    (f : Action → ℕ) (front back : List (List Action)) (a : Action) (rest : List Action)
    → left f (front ++ (a ∷ rest) ∷ back) ≡ f a + left f (front ++ rest ∷ back)
moved f front back a rest =
    omega (arith, left-append f front ((a ∷ rest) ∷ back), left-append f front (rest ∷ back))

-- While the latch counts more than the arrivals left, an action that runs is no wait, and the
-- latch still counts more.
act_lem :
    (a : Action) (l l' : CountDownLatch) (c after : ℕ)
    → Runs a l l'
    → l.count ≡ pos c
    → arrivals a + after < c
    → (c' : ℕ) × (l'.count ≡ pos c') × (after < c') × (waits a ≡ 0)
act_lem arrive l l' (suc c) after run e h =
    (c, ap (λ (k : CountDownLatch). k.count) run ∙ count_down_pos l c e, omega arith, refl)
act_lem await l l' (suc c) after run e h = absurd (true≢false (sym run.0 ∙ closed l c e))
act_lem _ l l' zero after run e h = absurd (omega arith)
act_lem _ l l' (suc c) after run e h =
    (suc c, ap (λ (k : CountDownLatch). k.count) run ∙ e, omega arith, refl)

Step-IsShort :
    (s t : System)
    → Step s t
    → IsShort s
    → IsShort t × (left waits t.threads ≡ left waits s.threads)
Step-IsShort s t (step front back a rest l l' run) h =
    let arrive_eq = moved arrivals front back a rest in
    let wait_eq = moved waits front back a rest in
    let (c, e, fewer, no_wait) =
      act_lem a l l' h.counter (left arrivals (front ++ rest ∷ back)) run h.is_count
        (omega (arith, h.short, arrive_eq)) in
    (record { counter = c; is_count = e; short = fewer }, omega (arith, wait_eq, no_wait))

-- If the latch counts more than the arrivals that the threads have left, it never opens, and every
-- wait that is left stays: a thread that has one never ends, whatever the order of the actions.
pub Reaches-deadlock :
    (s t : System)
    → IsShort s
    → Reaches s t
    → (is_open t.warmup_latch ≡ false) × (left waits t.threads ≡ left waits s.threads)
Reaches-deadlock s t h r = let (short, same) = go r in (shut t short, same)
  where
    go : {t : System} → Reaches s t → IsShort t × (left waits t.threads ≡ left waits s.threads)
    go here = (h, refl)
    go (onward {t = u} {u = v} r last_step) =
        let (short, same) = go r in
        let (short', same') = Step-IsShort u v last_step short in (short', same' ∙ same)

    shut : (t : System) → IsShort t → is_open t.warmup_latch ≡ false
    shut t k = pick k.counter k.is_count k.short
      where
        pick :
            (c : ℕ)
            → t.warmup_latch.count ≡ pos c
            → left arrivals t.threads < c
            → is_open t.warmup_latch ≡ false
        pick zero e h = absurd (omega arith)
        pick (suc c) e h = closed t.warmup_latch c e
