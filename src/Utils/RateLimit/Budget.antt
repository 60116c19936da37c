-- ===== src/Utils/RateLimit/Budget.antt =====
-- What the limiter lets through, how long it makes a client wait, and what SetRate adds.
use native.Mathlib.Nat.{div-mul-le_self, lt-mul-div-succ, le-div_iff_mul-le}
use my_ycsb_cpp.Prelude.{
  ℕ, suc, ◌*◌, ◌+◌, ◌<◌, ◌≤◌, ◌/◌, ◌≡◌, refl, ap, ◌∙◌, true, Option, some, arith, List, [], ◌∷◌,
  ltb,
}
use my_ycsb_cpp.Prelude.Int.{
  ℤ, pos, negsuc, sub_ℕ, ◌+ℤ◌, ◌-ℤ◌, ◌*ℤ◌, *ℤ-pos, neg_part, tdiv, min_ℤ, +ℤ_parts,
}
use my_ycsb_cpp.Utils.RateLimit.{
  RateLimiter, token_precision, second_ns, wait_time, consume, set_rate, ◌>>=◌,
}
use my_ycsb_cpp.Utils.RateLimit.Bounds.{set_rate_lem, checked}

debt-times : (t k : ℕ) → (pos 0 -ℤ negsuc t) *ℤ pos k ≡ pos (suc t * k)
unfolding ◌*ℤ◌ ◌-ℤ◌
debt-times t k = ground arith

elapsed : (last dt : ℕ) → sub_ℕ (last + dt) last ≡ pos dt
elapsed last dt = ground arith

wait_time_neg :
    (t r last : ℕ) (b : ℤ) {ns : ℕ}
    → wait_time (record { r = pos r; b = b; tokens = negsuc t; last = last }) ≡ some ns
    → suc t * second_ns / r ≡ ns
unfolding wait_time tdiv
wait_time_neg t r last b {ns} h =
    let e = checked ((pos 0 -ℤ negsuc t) *ℤ pos second_ns) _ (rw (in_debt t) at h) in
    ground (arith, rw (debt-times t second_ns) at e)
  where
    in_debt : (t : ℕ) → ltb (0 + 0) (0 + suc t) ≡ true
    in_debt t = ground arith

wait_time_pos :
    (t r last : ℕ) (b : ℤ) {ns : ℕ}
    → wait_time (record { r = pos r; b = b; tokens = pos t; last = last }) ≡ some ns
    → ns ≡ 0
unfolding wait_time
wait_time_pos t r last b h = ground arith

-- A client in debt sleeps just long enough for the rate to pay the debt, to the nanosecond; a
-- client that is not in debt does not sleep.
pub wait_time_covers :
    (l : RateLimiter) (r : ℕ) {ns : ℕ}
    → l.r ≡ pos r
    → 0 < r
    → wait_time l ≡ some ns
    → (ns * r ≤ neg_part l.tokens * second_ns) × (neg_part l.tokens * second_ns < suc ns * r)
wait_time_covers l r {ns} is_r positive h = split l.tokens refl
  where
    same :
        (t : ℤ)
        → l.tokens ≡ t
        → wait_time (record { r = pos r; b = l.b; tokens = t; last = l.last }) ≡ some ns
    same t e = rw (← e, ← is_r) h

    split :
        (t : ℤ)
        → l.tokens ≡ t
        → (ns * r ≤ neg_part l.tokens * second_ns) × (neg_part l.tokens * second_ns < suc ns * r)
    split (pos n) e = let q = wait_time_pos n r l.last l.b (same (pos n) e) in ground arith
    split (negsuc t) e =
        let q = wait_time_neg t r l.last l.b (same (negsuc t) e) in
        ground (
          arith,
          div-mul-le_self (suc t * second_ns) r,
          lt-mul-div-succ (suc t * second_ns) positive,
        )

-- Calls of Consume, each with its time since the call before and its number of tokens.
unfoldable pub consume_all : RateLimiter → List (ℕ × ℕ) → Option RateLimiter
consume_all l [] = some l
consume_all l ((dt, n) ∷ calls) = do
  done ← consume l (pos n) (l.last + dt)
  consume_all done.0 calls

abbrev pub elapsed_ns : List (ℕ × ℕ) → ℕ
elapsed_ns [] = 0
elapsed_ns ((dt, n) ∷ calls) = dt + elapsed_ns calls

abbrev pub consumed : List (ℕ × ℕ) → ℕ
consumed [] = 0
consumed ((dt, n) ∷ calls) = n + consumed calls

-- SetRate counts the time since the last call ten thousand times over: with a bucket that holds
-- one second's tokens, and a client that is not in debt, any change of rate 0.1 ms or more after
-- the last call fills the bucket.
pub set_rate_overfills :
    (l : RateLimiter) (r t dt : ℕ) (rate : ℤ) {m : RateLimiter}
    → l.r ≡ pos r
    → l.b ≡ pos r
    → l.tokens ≡ pos t
    → 100000 ≤ dt
    → set_rate l rate (l.last + dt) ≡ some m
    → m.tokens ≡ l.b
unfolding tdiv
set_rate_overfills l r t dt rate {m} is_r is_b is_t idle h =
    let e = set_rate_lem l rate (l.last + dt) h in
    let gain : sub_ℕ (l.last + dt) l.last *ℤ l.r *ℤ pos token_precision
        ≡ pos (dt * r * token_precision) =
      rw (is_r, elapsed l.last dt, *ℤ-pos dt r) (*ℤ-pos (dt * r) token_precision) in
    let e' : m.tokens ≡ min_ℤ l.b (l.tokens +ℤ pos (dt * r * token_precision / second_ns)) =
      ap (λ (x : RateLimiter). x.tokens) e ∙ rw gain refl in
    let large : r ≤ dt * r * token_precision / second_ns =
      (le-div_iff_mul-le (omega arith)).1 (grind arith) in
    ground (arith, e', +ℤ_parts l.tokens (pos (dt * r * token_precision / second_ns)))
