-- ===== src/Utils/Text/Numbers.antt =====
-- std::to_string of an unsigned number and std::stoi, of the standard library.
use my_ycsb_cpp.Prelude.{
  ℕ, zero, suc, ◌+◌, ◌-◌, ◌*◌, ◌/◌, ◌%◌, ◌^◌, Bool, ◌&&◌, [], ◌∷◌, leb, ltb, ◌==◌, if◌then◌else◌,
}
use my_ycsb_cpp.Prelude.Int.{ℤ, pos, sub_ℕ}
use my_ycsb_cpp.Prelude.Bytes.{Bytes}
use my_ycsb_cpp.Prelude.Result.{Result, ok, err, invalid_argument, out_of_range}
use my_ycsb_cpp.Utils.Text.{skip_spaces}

-- The decimal digits of `n` before `acc`. Fuel `n + 1` always suffices: each round divides by ten.
unfoldable pub digits_onto : ℕ → ℕ → Bytes → Bytes
digits_onto zero n acc = acc
digits_onto (suc fuel) n acc =
    let rest = digits_onto fuel (n / 10) ((n % 10 + b'0') ∷ acc) in
    if ltb n 10 then (n + b'0') ∷ acc else rest

unfoldable pub to_string : ℕ → Bytes
unfolding digits_onto
to_string n = digits_onto (n + 1) n []

unfoldable pub is_digit : ℕ → Bool
is_digit c = leb b'0' c && leb c b'9'

-- The number that the leading digits denote.
unfoldable pub leading_digits : ℕ → Bytes → ℕ
unfolding is_digit
leading_digits n [] = n
leading_digits n (c ∷ s) =
    let rest = leading_digits (n * 10 + (c - b'0')) s in if is_digit c then rest else n

-- A number in the range of the signed type of `bits + 1` bits.
unfoldable pub in_signed : ℕ → ℤ → Result ℤ
in_signed bits (pos n) = if ltb n (2 ^ bits) then ok (pos n) else err out_of_range
in_signed bits (ℤ.negsuc n) = if ltb n (2 ^ bits) then ok (ℤ.negsuc n) else err out_of_range

unsigned_part : ℕ → Bool → Bytes → Result ℤ
unfolding in_signed leading_digits
unsigned_part bits negative [] = err invalid_argument
unsigned_part bits negative (c ∷ s) =
    let n = leading_digits 0 (c ∷ s) in
    if is_digit c
    then in_signed bits (if negative then sub_ℕ 0 n else pos n)
    else err invalid_argument

signed_part : ℕ → Bytes → Result ℤ
unfolding unsigned_part
signed_part bits [] = err invalid_argument
signed_part bits (c ∷ s) =
    if c == b'-'
    then unsigned_part bits Bool.true s
    else if c == b'+'
    then unsigned_part bits Bool.false s
    else unsigned_part bits Bool.false (c ∷ s)

unfoldable pub stoi : Bytes → Result ℤ
unfolding signed_part skip_spaces
stoi s = signed_part 31 (skip_spaces s)

-- std::stol, of 64 bits
unfoldable pub stol : Bytes → Result ℤ
unfolding signed_part skip_spaces
stol s = signed_part 63 (skip_spaces s)

unsigned_64 : Bool → Bytes → Result ℕ
unfolding leading_digits
unsigned_64 negative [] = err invalid_argument
unsigned_64 negative (c ∷ s) =
    let n = leading_digits 0 (c ∷ s) in
    if is_digit c
    then (if ltb n (2 ^ 64)
        then ok (if negative then (2 ^ 64 - n) % 2 ^ 64 else n)
        else err out_of_range)
    else err invalid_argument

-- std::stoul, which takes a negative number modulo 2^64
unfoldable pub stoul : Bytes → Result ℕ
unfolding unsigned_64 skip_spaces
stoul s = signed (skip_spaces s)
  where
    signed : Bytes → Result ℕ
    signed [] = err invalid_argument
    signed (c ∷ r) =
        if c == b'-'
        then unsigned_64 Bool.true r
        else if c == b'+'
        then unsigned_64 Bool.false r
        else unsigned_64 Bool.false (c ∷ r)
