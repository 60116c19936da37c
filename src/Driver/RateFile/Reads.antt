-- ===== src/Driver/RateFile/Reads.antt =====
-- A number that is printed and read again.
use native.Mathlib.Nat.{div-add-mod, mod-lt}
use my_ycsb_cpp.Prelude.{
  ℕ, zero, suc, ◌+◌, ◌-◌, ◌*◌, ◌/◌, ◌%◌, ◌^◌, ◌<◌, ◌≡◌, refl, ap, sym, ◌∙◌, true, false, [], ◌∷◌,
  ◌++◌, some, ◌==◌, ltb, Bool-cases, inl, inr, arith,
}
use my_ycsb_cpp.Prelude.Int.{pos}
use my_ycsb_cpp.Prelude.Bytes.{Bytes}
use my_ycsb_cpp.Utils.Text.{is_space, skip_spaces}
use my_ycsb_cpp.Utils.Text.Numbers.{digits_onto, to_string, is_digit, leading_digits}
use my_ycsb_cpp.Driver.RateFile.{Stream, drop_digits, is_end, read_digits, read_signed, extract}

digits_onto-append :
    (fuel n : ℕ) (acc rest : Bytes)
    → digits_onto fuel n acc ++ rest ≡ digits_onto fuel n (acc ++ rest)
unfolding digits_onto
digits_onto-append zero n acc rest = refl
digits_onto-append (suc fuel) n acc rest =
    ground (arith, digits_onto-append fuel (n / 10) ((n % 10 + b'0') ∷ acc) rest)

-- The first digit, the number and the rest of what is printed before `s`.
digits_onto-reads :
    (fuel n : ℕ) (s : Bytes)
    → n < fuel
    → let text = digits_onto fuel n s in
      ((c : ℕ) × (rest : Bytes) × (text ≡ c ∷ rest) × (is_digit c ≡ true))
      × (leading_digits 0 text ≡ leading_digits n s)
      × (drop_digits text ≡ drop_digits s)
unfolding digits_onto
digits_onto-reads zero n s low = absurd (omega arith)
digits_onto-reads (suc fuel) n s low = elim (Bool-cases (ltb n 10)) [
  | inl small ↦ rw small (
    (n + b'0', s, refl, unfold is_digit in ground (arith, small)),
    unfold leading_digits is_digit in ground (arith, small),
    unfold drop_digits is_digit in ground (arith, small),
  )
  | inr large ↦
      let digit : n % 10 < 10 = mod-lt n (omega arith) in
      let whole : n / 10 * 10 + n % 10 ≡ n = omega (arith, div-add-mod n 10) in
      let (first, number, rest) =
        digits_onto-reads fuel (n / 10) ((n % 10 + b'0') ∷ s) (ground (arith, large, low, whole)) in
      rw large (
        first,
        number ∙ (unfold leading_digits is_digit in ground (arith, digit, whole)),
        rest ∙ (unfold drop_digits is_digit in ground (arith, digit)),
      )
]

-- What a number ends before.
abbrev pub Stops : Bytes → Type 0
Stops [] = Unit
Stops (c ∷ s) = is_digit c ≡ false

leading_digits-Stops : (n : ℕ) (s : Bytes) → Stops s → leading_digits n s ≡ n
unfolding leading_digits
leading_digits-Stops n [] h = refl
leading_digits-Stops n (c ∷ s) h = rw h refl

drop_digits-Stops : (s : Bytes) → Stops s → drop_digits s ≡ s
unfolding drop_digits
drop_digits-Stops [] h = refl
drop_digits-Stops (c ∷ s) h = rw h refl

abbrev pub good : Bytes → Stream
good bytes = record { bytes = bytes; eof = false; fail = false }

abbrev pub behind : Bytes → Stream
behind rest = record { bytes = rest; eof = is_end rest; fail = false }

read_signed-digit :
    (c n : ℕ) (s rest : Bytes)
    → is_digit c ≡ true
    → leading_digits 0 (c ∷ s) ≡ n
    → drop_digits (c ∷ s) ≡ rest
    → n < 2 ^ 63
    → extract (good (c ∷ s)) ≡ (some (pos n), behind rest)
unfolding extract skip_spaces read_signed read_digits leading_digits drop_digits
read_signed-digit c n s rest digit number dropped low =
    let here : (is_space c ≡ false) × ((c == b'-') ≡ false) × ((c == b'+') ≡ false) =
      unfold is_space is_digit in ground (arith, digit) in
    let fits : ltb n (2 ^ 63) ≡ true = ground (arith, low) in
    let number' : leading_digits (0 * 10 + (c - b'0')) s ≡ n = rw digit at number in
    let dropped' : drop_digits s ≡ rest = rw digit at dropped in
    rw (here.0, here.1, here.2, digit, number', dropped', fits) refl

-- A printed number below 2^63 is read as itself, with what is behind it left.
pub extract-number :
    (n : ℕ) (rest : Bytes)
    → n < 2 ^ 63
    → Stops rest
    → extract (good (to_string n ++ rest)) ≡ (some (pos n), behind rest)
unfolding to_string
extract-number n rest low stops =
    let ((c, s, starts, digit), number, dropped) = digits_onto-reads (n + 1) n rest (omega arith) in
    ap (λ b. extract (good b)) (digits_onto-append (n + 1) n [] rest ∙ starts)
    ∙ read_signed-digit c n s rest digit
        (ap (leading_digits 0) (sym starts) ∙ number ∙ leading_digits-Stops n rest stops)
        (ap drop_digits (sym starts) ∙ dropped ∙ drop_digits-Stops rest stops) low

-- White space before it is skipped.
pub extract-space :
    (c : ℕ) (s : Bytes) → is_space c ≡ true → extract (good (c ∷ s)) ≡ extract (good s)
unfolding extract skip_spaces
extract-space c s space = rw space refl
