-- ===== src/Utils/RateLimit/Bounds.antt =====
-- What a call of the limiter computes where no 64-bit result overflows.
use my_ycsb_cpp.Prelude.{ℕ, ◌≡◌, refl, ap, ◌∙◌, true, Option, none, some, arith}
use my_ycsb_cpp.Prelude.Int.{ℤ, pos, negsuc, sub_ℕ, ◌+ℤ◌, ◌-ℤ◌, ◌*ℤ◌, tdiv, min_ℤ, ltb_ℤ}
use my_ycsb_cpp.Utils.RateLimit.{
  RateLimiter, int64, token_precision, second_ns, refill, wait_time, consume, set_rate, ◌>>=◌,
}

int64-eq : (a : ℤ) {c : ℤ} → int64 a ≡ some c → c ≡ a
unfolding int64
int64-eq (pos n) h = ground arith
int64-eq (negsuc n) h = ground arith

-- Inversion of a bind whose first step checks a 64-bit result.
pub checked :
    {B : Type 0} (a : ℤ) (f : ℤ → Option B) {b : B} → (int64 a >>= f) ≡ some b → f a ≡ some b
checked {B} a f {b} h = split (int64 a) refl h
  where
    split : (o : Option ℤ) → int64 a ≡ o → (o >>= f) ≡ some b → f a ≡ some b
    split none e k = cc
    split (some c) e k = cc (int64-eq a e)

pub bind_elim :
    {A B C : Type 0} (m : Option A) (f : A → Option B) {b : B}
    → (m >>= f) ≡ some b
    → ((a : A) → m ≡ some a → f a ≡ some b → C)
    → C
bind_elim none f h k = cc
bind_elim (some a) f h k = k a refl h

abbrev pub refilled : RateLimiter → ℤ → ℕ → RateLimiter
refilled l gain now = record l { tokens = min_ℤ l.b (l.tokens +ℤ tdiv gain second_ns); last = now }

refill_lem :
    (l : RateLimiter) (gain : ℤ) (now : ℕ) {m : RateLimiter}
    → refill l gain now ≡ some m
    → m ≡ refilled l gain now
unfolding refill
refill_lem l gain now h = cc (checked (l.tokens +ℤ tdiv gain second_ns) _ h)

abbrev pub charged : RateLimiter → ℤ → ℕ → RateLimiter
charged l n now =
    let filled = refilled l (sub_ℕ now l.last *ℤ l.r) now in
    record filled { tokens = filled.tokens -ℤ n *ℤ pos token_precision }

pub consume_lem :
    (l : RateLimiter) (n : ℤ) (now : ℕ) {m : RateLimiter} {ns : ℕ}
    → ltb_ℤ (pos 0) l.r ≡ true
    → consume l n now ≡ some (m, ns)
    → (m ≡ charged l n now) × (wait_time m ≡ some ns)
unfolding consume
consume_lem l n now {m} {ns} positive h =
    bind_elim (refill l gain now) _ (checked gain _ (rw positive at h)) λ filled is_filled h1.
      bind_elim (wait_time (record filled { tokens = filled.tokens -ℤ cost })) _
        (checked (filled.tokens -ℤ cost) _ (checked cost _ h1))
        λ w is_wait h2.
          let same : m ≡ record filled { tokens = filled.tokens -ℤ cost } = cc in
          let e : filled ≡ refilled l gain now = refill_lem l gain now is_filled in
          (
            same ∙ ap (λ (f : RateLimiter). record f { tokens = f.tokens -ℤ cost }) e,
            rw same (is_wait ∙ cc),
          )
  where
    gain : ℤ
    gain = sub_ℕ now l.last *ℤ l.r

    cost : ℤ
    cost = n *ℤ pos token_precision

pub set_rate_lem :
    (l : RateLimiter) (r : ℤ) (now : ℕ) {m : RateLimiter}
    → set_rate l r now ≡ some m
    → m ≡ record (refilled l (sub_ℕ now l.last *ℤ l.r *ℤ pos token_precision) now) {
      r = r *ℤ pos token_precision;
    }
unfolding set_rate
set_rate_lem l r now {m} h =
    bind_elim (refill l (plain *ℤ pos token_precision) now) _
      (checked (plain *ℤ pos token_precision) _ (checked plain _ h))
      λ filled is_filled h1.
        let h2 = checked (r *ℤ pos token_precision) _ h1 in
        let same : m ≡ record filled { r = r *ℤ pos token_precision } = cc in
        let e : filled ≡ refilled l (plain *ℤ pos token_precision) now =
          refill_lem l (plain *ℤ pos token_precision) now is_filled in
        same ∙ ap (λ (f : RateLimiter). record f { r = r *ℤ pos token_precision }) e
  where
    plain : ℤ
    plain = sub_ℕ now l.last *ℤ l.r
