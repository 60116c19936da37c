-- ===== src/Driver/RateFile/Schedules.antt =====
-- What RateLimitThread does with a file of times and rates.
use my_ycsb_cpp.Prelude.{
  ℕ, zero, suc, ◌+◌, ◌/◌, ◌^◌, ◌<◌, ◌≤◌, ◌≡◌, refl, ap, ◌∙◌, Bool, true, false, List, [], ◌∷◌, ◌++◌,
  All, length, length-append, append-nil, arith,
}
use my_ycsb_cpp.Prelude.Int.{ℤ, pos, ◌-ℤ◌, tdiv}
use my_ycsb_cpp.Prelude.Bytes.{Bytes}
use my_ycsb_cpp.Prelude.Outcome.{Outcome, done, thrown, undefined, stuck, ◌>>=◌}
use my_ycsb_cpp.Utils.Text.{is_space, skip_spaces}
use my_ycsb_cpp.Utils.Text.Numbers.{to_string, is_digit}
use my_ycsb_cpp.Utils.RateLimit.{int64}
use my_ycsb_cpp.Driver.RateFile.{
  RateAction, await_for, set_rates, extract, read_signed, seconds, rate_loop, rate_limit_thread,
}
use my_ycsb_cpp.Driver.RateFile.Reads.{good, behind, Stops, extract-number, extract-space}

-- A file of times and rates, one line for each, with something behind the last line.
abbrev pub rate_text : ℕ × ℕ → List (ℕ × ℕ) → Bytes → Bytes
rate_text (time, rate) [] end = to_string time ++ (32 ∷ (to_string rate ++ end))
rate_text (time, rate) (entry ∷ entries) end =
    to_string time ++ (32 ∷ (to_string rate ++ (10 ∷ rate_text entry entries end)))

-- Each rate at its time, divided among the threads.
abbrev pub schedule : ℕ → ℕ → List (ℕ × ℕ) → List RateAction
schedule num_threads last_time [] = []
schedule num_threads last_time ((time, rate) ∷ entries) =
    await_for (pos time -ℤ pos last_time)
    ∷ set_rates (pos (rate / num_threads))
    ∷ schedule num_threads time entries

abbrev pub FitsInt64 : ℕ × ℕ → Type 0
FitsInt64 (time, rate) = (time < 2 ^ 63) × (rate < 2 ^ 63)

abbrev pub never : ℕ → Bool
never i = false

seconds-pos :
    (time last_time : ℕ)
    → time < 2 ^ 63
    → last_time < 2 ^ 63
    → seconds (pos time) (pos last_time) ≡ done (pos time -ℤ pos last_time)
unfolding seconds int64 ◌-ℤ◌
seconds-pos time last_time low low' = ground arith

done-done :
    (m : Outcome (List RateAction)) (f g : List RateAction → List RateAction)
    → ((m >>= λ later. done (g later)) >>= λ later. done (f later))
      ≡ (m >>= λ later. done (f (g later)))
done-done (done later) f g = refl
done-done (thrown e) f g = refl
done-done undefined f g = refl
done-done stuck f g = refl

-- One line.
round-reads :
    (fuel n i last_time time rate : ℕ) (rest : Bytes)
    → time < 2 ^ 63
    → rate < 2 ^ 63
    → last_time < 2 ^ 63
    → Stops rest
    → rate_loop
        (suc fuel)
        never
        n
        i
        (pos last_time)
        (good (to_string time ++ (32 ∷ (to_string rate ++ rest))))
      ≡ (rate_loop fuel never n (i + 1) (pos time) (behind rest) >>= λ rest_done.
          done (await_for (pos time -ℤ pos last_time) ∷ set_rates (pos (rate / n)) ∷ rest_done))
round-reads fuel n i last_time time rate rest low low' low'' stops =
    let first = extract-number time (32 ∷ (to_string rate ++ rest)) low (unfold is_digit in refl) in
    let second =
      extract-space 32 (to_string rate ++ rest) (unfold is_space in refl)
      ∙ extract-number rate rest low' stops in
    unfold rate_loop tdiv in
    rw (first, second, seconds-pos time last_time low low'')
      (done-done (rate_loop fuel never n (i + 1) (pos time) (behind rest))
        (λ later. await_for (pos time -ℤ pos last_time) ∷ later)
        (λ later. set_rates (pos (rate / n)) ∷ later))

-- A line break before the next line is skipped.
rate_loop-newline :
    (fuel n i : ℕ) (last_time : ℤ) (s : Bytes)
    → rate_loop fuel never n i last_time (good (10 ∷ s))
      ≡ rate_loop fuel never n i last_time (good s)
unfolding rate_loop
rate_loop-newline zero n i last_time s = refl
rate_loop-newline (suc fuel) n i last_time s =
    rw (extract-space 10 s (unfold is_space in refl)) refl

-- The lines of a file, and what the loop makes of the rest of it.
lines-read :
    (n : ℕ) (end : Bytes) (out : Outcome (List RateAction))
    → Stops end
    → ((fuel i time : ℕ) → rate_loop (suc fuel) never n i (pos time) (behind end) ≡ out)
    → (fuel i last_time : ℕ) (entry : ℕ × ℕ) (entries : List (ℕ × ℕ)) → FitsInt64 entry
    → All FitsInt64 entries
    → last_time < 2 ^ 63
    → length entries < fuel
    → rate_loop (suc fuel) never n i (pos last_time) (good (rate_text entry entries end))
      ≡ (out >>= λ later. done (schedule n last_time (entry ∷ entries) ++ later))
lines-read n end out stops after zero i last_time entry entries fit fits low enough =
    absurd (omega arith)
lines-read n end out stops after (suc fuel) i last_time (time, rate) [] fit fits low enough =
    round-reads (suc fuel) n i last_time time rate end fit.0 fit.1 low stops
    ∙ ap
        (λ m. m >>= λ later.
          done (await_for (pos time -ℤ pos last_time) ∷ set_rates (pos (rate / n)) ∷ later))
        (after fuel (i + 1) time)
lines-read n end out stops after (suc fuel) i last_time (time, rate) (entry ∷ entries) fit fits low
      enough =
    round-reads (suc fuel) n i last_time time rate (10 ∷ rate_text entry entries end) fit.0 fit.1
      low (unfold is_digit in refl)
    ∙ ap
        (λ m. m >>= λ later.
          done (await_for (pos time -ℤ pos last_time) ∷ set_rates (pos (rate / n)) ∷ later))
        (rate_loop-newline (suc fuel) n (i + 1) (pos time) (rate_text entry entries end)
          ∙ lines-read n end out stops after fuel (i + 1) time entry entries fits.0 fits.1 fit.0
              (omega arith))
    ∙ done-done out
        (λ later. await_for (pos time -ℤ pos last_time) ∷ set_rates (pos (rate / n)) ∷ later)
        (λ later. schedule n time (entry ∷ entries) ++ later)

loop_ends : (n fuel i time : ℕ) → rate_loop (suc fuel) never n i (pos time) (behind []) ≡ done []
unfolding rate_loop
loop_ends n fuel i time = refl

loop_undefined :
    (n fuel i time : ℕ) → rate_loop (suc fuel) never n i (pos time) (behind (10 ∷ [])) ≡ undefined
unfolding rate_loop extract skip_spaces is_space read_signed
loop_undefined n fuel i time = refl

length-rate_text :
    (entry : ℕ × ℕ) (entries : List (ℕ × ℕ)) (end : Bytes)
    → length entries ≤ length (rate_text entry entries end)
length-rate_text (time, rate) [] end = omega arith
length-rate_text (time, rate) (entry ∷ entries) end = omega (
  arith,
  length-append (to_string time) (32 ∷ (to_string rate ++ (10 ∷ rate_text entry entries end))),
  length-append (to_string rate) (10 ∷ rate_text entry entries end),
  length-rate_text entry entries end,
)

-- If the latch is never done, a file of times and rates below 2^63, one line for each, sets each rate
-- at its time, divided among the threads, if it ends with its last rate; and a file that ends with a
-- line break has the thread use a time that was never read.
pub rate_limit_thread-schedule :
    (n : ℕ) (entry : ℕ × ℕ) (entries : List (ℕ × ℕ))
    → All FitsInt64 (entry ∷ entries)
    → (rate_limit_thread never n true (rate_text entry entries [])
        ≡ done (schedule n 0 (entry ∷ entries)))
      × (rate_limit_thread never n true (rate_text entry entries (10 ∷ [])) ≡ undefined)
unfolding rate_limit_thread
rate_limit_thread-schedule n entry entries fits = (
  lines-read n [] (done []) tt (loop_ends n) (suc (length (rate_text entry entries []))) 0 0 entry
        entries fits.0 fits.1 (omega arith) (omega (arith, length-rate_text entry entries []))
      ∙ ap done (append-nil (schedule n 0 (entry ∷ entries))),
  lines-read n (10 ∷ []) undefined (unfold is_digit in refl) (loop_undefined n)
      (suc (length (rate_text entry entries (10 ∷ [])))) 0 0 entry entries fits.0 fits.1
      (omega arith) (omega (arith, length-rate_text entry entries (10 ∷ []))),
)
