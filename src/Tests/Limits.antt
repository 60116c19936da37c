-- ===== src/Tests/Limits.antt =====
-- The rate limiter at concrete rates and times.
use my_ycsb_cpp.Prelude.{ℕ, ◌≡◌, refl, List, [], ◌∷◌, some}
use my_ycsb_cpp.Prelude.Int.{pos, negsuc}
use my_ycsb_cpp.Utils.RateLimit.{RateLimiter, consume, new}

-- A limiter of two operations a second, as its constructor makes it at the time 5.
abbrev pub two_a_second : RateLimiter
two_a_second = record { r = pos 20000; b = pos 20000; tokens = pos 0; last = 5 }

new_two : new (pos 2) (pos 2) 5 ≡ some two_a_second
unfolding new
new_two = refl

abbrev pub in_debt : RateLimiter
in_debt = record { r = pos 20000; b = pos 20000; tokens = negsuc 9999; last = 5 }

-- The first Consume of an empty bucket waits half a second.
consume_first : consume two_a_second (pos 1) 5 ≡ some (in_debt, 500000000)
unfolding consume
consume_first = refl

abbrev pub calls : List (ℕ × ℕ)
calls = (0, 1) ∷ (500000000, 1) ∷ []

abbrev pub later : RateLimiter
later = record { r = pos 20000; b = pos 20000; tokens = negsuc 9999; last = 500000005 }

abbrev pub raised : RateLimiter
raised = record { r = pos 30000; b = pos 20000; tokens = pos 20000; last = 100005 }
