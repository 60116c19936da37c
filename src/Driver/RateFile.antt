-- ===== src/Driver/RateFile.antt =====
-- RateLimitThread of core/ycsbc.cc, which reads the rates from a file and sets them in their time.
-- A number is read as std::ifstream does: what a stream that has failed or ended is asked for is not
-- written, and the variable keeps the value that it never got.
pub mod Ends
pub mod Reads
pub mod Schedules
use my_ycsb_cpp.Prelude.{
  ℕ, zero, suc, ◌+◌, ◌-◌, ◌^◌, Bool, true, false, ◌||◌, List, [], ◌∷◌, Option, none, some, ◌==◌,
  ltb, not, length, if◌then◌else◌,
}
use my_ycsb_cpp.Prelude.Int.{ℤ, pos, negsuc, ◌-ℤ◌, sub_ℕ, tdiv}
use my_ycsb_cpp.Prelude.Bytes.{Bytes}
use my_ycsb_cpp.Prelude.Outcome.{Outcome, done, thrown, undefined, stuck, ◌>>=◌}
use my_ycsb_cpp.Utils.Text.{skip_spaces}
use my_ycsb_cpp.Utils.Text.Numbers.{is_digit, leading_digits}
use my_ycsb_cpp.Utils.RateLimit.{int64}

-- An input stream: the bytes that are left, eofbit and failbit.
pub record Stream : Type 0 where
  pub bytes : Bytes
  pub eof : Bool
  pub fail : Bool

unfoldable pub drop_digits : Bytes → Bytes
unfolding is_digit
drop_digits [] = []
drop_digits (c ∷ s) = let rest = drop_digits s in if is_digit c then rest else c ∷ s

abbrev pub is_end : Bytes → Bool
is_end [] = true
is_end (c ∷ s) = false

-- A number out of range is read as the last one in range.
abbrev pub saturated : Bool → ℕ → ℤ
saturated false n = if ltb n (2 ^ 63) then pos n else pos (2 ^ 63 - 1)
saturated true n = if ltb (2 ^ 63) n then negsuc (2 ^ 63 - 1) else sub_ℕ 0 n

abbrev pub is_out : Bool → ℕ → Bool
is_out false n = if ltb n (2 ^ 63) then false else true
is_out true n = ltb (2 ^ 63) n

-- The digits behind the sign. Where there are none, zero is written and the stream fails.
unfoldable pub read_digits : Bool → Bytes → Option ℤ × Stream
unfolding is_digit leading_digits drop_digits
read_digits negative [] = (some (pos 0), record { bytes = []; eof = true; fail = true })
read_digits negative (c ∷ s) =
    let n = leading_digits 0 (c ∷ s) in
    let rest = drop_digits (c ∷ s) in
    if is_digit c
    then (
      some (saturated negative n),
      record { bytes = rest; eof = is_end rest; fail = is_out negative n },
    )
    else (some (pos 0), record { bytes = c ∷ s; eof = false; fail = true })

unfoldable pub read_signed : Bytes → Option ℤ × Stream
unfolding read_digits
read_signed [] = (none, record { bytes = []; eof = true; fail = true })
read_signed (c ∷ s) =
    if c == b'-'
    then read_digits true s
    else if c == b'+'
    then read_digits false s
    else read_digits false (c ∷ s)

-- `ifs >> number`, with the value that is written.
unfoldable pub extract : Stream → Option ℤ × Stream
unfolding skip_spaces read_signed
extract ifs =
    if ifs.eof || ifs.fail
    then (none, record ifs { fail = true })
    else read_signed (skip_spaces ifs.bytes)

-- What the thread does: AwaitFor with its time in seconds, and SetRate of every limiter.
pub data RateAction : Type 0 where
  await_for set_rates : ℤ → RateAction

-- The value of a variable, which is undefined where nothing was written.
abbrev pub written : Option ℤ → Outcome ℤ
written none = undefined
written (some n) = done n

-- `next_time - last_time`, where it overflows no int64_t
unfoldable pub seconds : ℤ → ℤ → Outcome ℤ
unfolding int64 ◌-ℤ◌
seconds next_time last_time = written (int64 (next_time -ℤ last_time))

-- The loop. `is_done` says what AwaitFor returns in each round. Any fuel above the length of the
-- file is enough: a round takes a digit, or it makes the stream fail and the next one is undefined.
unfoldable pub rate_loop : ℕ → (ℕ → Bool) → ℕ → ℕ → ℤ → Stream → Outcome (List RateAction)
unfolding extract seconds tdiv
rate_loop zero is_done num_threads i last_time ifs = stuck
rate_loop (suc fuel) is_done num_threads i last_time ifs =
    let time_read = extract ifs in
    let rate_read = extract time_read.1 in
    let round : Outcome (List RateAction) = (do
      next_time ← written time_read.0
      wait ← seconds next_time last_time
      rest ←
          (if is_done i then done [] else (do
            next_rate ← written rate_read.0
            rest ← rate_loop fuel is_done num_threads (i + 1) next_time rate_read.1
            done (set_rates (tdiv next_rate num_threads) ∷ rest)))
      done (await_for wait ∷ rest)) in
    if ifs.eof then done [] else round

-- The thread over a file that is open, or that is not, whose stream has failed.
unfoldable pub rate_limit_thread : (ℕ → Bool) → ℕ → Bool → Bytes → Outcome (List RateAction)
unfolding rate_loop
rate_limit_thread is_done num_threads is_open content =
    rate_loop (suc (suc (length content))) is_done num_threads 0 (pos 0)
      (record { bytes = if is_open then content else []; eof = false; fail = not is_open })
