-- ===== src/Utils/RateLimit.antt =====
-- The class RateLimiter of utils/rate_limit.h, one per client. The clock is an argument of each
-- call, in nanoseconds. `none` is undefined behaviour: a signed 64-bit result out of range, or the
-- division of a wait by a rate of 0 (which the code never makes).
pub mod Bounds
pub mod Budget
use my_ycsb_cpp.Prelude.{ℕ, zero, suc, ◌*◌, ◌-◌, ◌^◌, Bool, Option, none, some, ltb, if◌then◌else◌}
use my_ycsb_cpp.Prelude.Int.{ℤ, pos, negsuc, sub_ℕ, ◌+ℤ◌, ◌-ℤ◌, ◌*ℤ◌, tdiv, ltb_ℤ, min_ℤ, pos_part}

infixl 5 ◌>>=◌
abbrev pub ◌>>=◌ : {A B : Type 0} → Option A → (A → Option B) → Option B
none >>= f = none
some a >>= f = f a

unfoldable pub int64 : ℤ → Option ℤ
int64 (pos n) = if ltb n (2 ^ 63) then some (pos n) else none
int64 (negsuc n) = if ltb n (2 ^ 63) then some (negsuc n) else none

abbrev pub token_precision : ℕ
token_precision = 10000

abbrev pub second_ns : ℕ
second_ns = 1000000000

pub record RateLimiter : Type 0 where
  pub r : ℤ
  pub b : ℤ
  pub tokens : ℤ
  pub last : ℕ

-- The constructor, called at the time `now`.
unfoldable pub new : ℤ → ℤ → ℕ → Option RateLimiter
unfolding int64 ◌*ℤ◌
new r b now = do
  r' ← int64 (r *ℤ pos token_precision)
  b' ← int64 (b *ℤ pos token_precision)
  some (record { r = r'; b = b'; tokens = pos 0; last = now })

-- `tokens_ + diff * r_ / 1000000000`, cut at `b_`; `gain` is `diff * r_`.
unfoldable pub refill : RateLimiter → ℤ → ℕ → Option RateLimiter
unfolding int64 ◌+ℤ◌ tdiv
refill l gain now = do
  total ← int64 (l.tokens +ℤ tdiv gain second_ns)
  some (record l { tokens = min_ℤ l.b total; last = now })

-- The nanoseconds that Consume sleeps; a client that has tokens does not sleep.
unfoldable pub wait_time : RateLimiter → Option ℕ
unfolding int64 ◌*ℤ◌ tdiv ◌-ℤ◌
wait_time l =
    if ltb_ℤ l.tokens (pos 0)
    then (do
      owed ← int64 ((pos 0 -ℤ l.tokens) *ℤ pos second_ns)
      some (pos_part (tdiv owed (pos_part l.r))))
    else some 0

-- The limiter after the call, and the nanoseconds that it slept.
unfoldable pub consume : RateLimiter → ℤ → ℕ → Option (RateLimiter × ℕ)
unfolding int64 ◌*ℤ◌ ◌-ℤ◌ refill wait_time
consume l n now =
    if ltb_ℤ (pos 0) l.r
    then (do
      gain ← int64 (sub_ℕ now l.last *ℤ l.r)
      filled ← refill l gain now
      cost ← int64 (n *ℤ pos token_precision)
      left ← int64 (filled.tokens -ℤ cost)
      ns ← wait_time (record filled { tokens = left })
      some (record filled { tokens = left }, ns))
    else some (l, 0)

unfoldable pub set_rate : RateLimiter → ℤ → ℕ → Option RateLimiter
unfolding int64 ◌*ℤ◌ refill
set_rate l r now = do
  plain ← int64 (sub_ℕ now l.last *ℤ l.r)
  gain ← int64 (plain *ℤ pos token_precision)
  filled ← refill l gain now
  r' ← int64 (r *ℤ pos token_precision)
  some (record filled { r = r' })
