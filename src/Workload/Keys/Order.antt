-- ===== src/Workload/Keys/Order.antt =====
-- The keys of ordered inserts: all of one length, and in the order of their numbers.
use native.Mathlib.Nat.{pow-suc}
use my_ycsb_cpp.Prelude.{
  ℕ, zero, suc, ◌+◌, ◌-◌, ◌/◌, ◌%◌, ◌^◌, ◌<◌, ◌≡◌, sym, ap, ◌∙◌, true, false, [], ◌∷◌, ◌++◌,
  append_assoc, length, arith, dec_lt,
}
use my_ycsb_cpp.Prelude.Int.{pos, ◌-ℤ◌, pos_part}
use my_ycsb_cpp.Prelude.Bytes.{lit, bytes_lt, bytes_lt-append_left, bytes_lt-append_right}
use my_ycsb_cpp.Utils.Text.Numbers.{to_string}
use my_ycsb_cpp.Workload.Keys.{build_key_name}
use my_ycsb_cpp.Workload.Keys.Decimal.{
  columns, columns-append, columns-suc, length-columns, pad_to_string,
}

last_column : (a b : ℕ) → a < b → bytes_lt ((a + b'0') ∷ []) ((b + b'0') ∷ []) ≡ true
unfolding bytes_lt
last_column a b h = ground arith

columns-lt : (k n m : ℕ) → n < m → m < 10 ^ k → bytes_lt (columns k n []) (columns k m []) ≡ true
columns-lt zero n m lt fits = absurd (omega arith)
columns-lt (suc k) n m lt fits =
    rw
      (
        ← columns-suc k n [],
        ← columns-suc k m [],
        columns-append k (n / 10) ((n % 10 + b'0') ∷ []),
        columns-append k (m / 10) ((m % 10 + b'0') ∷ []),
      )
      (elim (dec_lt (n / 10) (m / 10)) [
        | yes less ↦
            bytes_lt-append_right (columns k (n / 10) []) (columns k (m / 10) [])
              ((n % 10 + b'0') ∷ []) ((m % 10 + b'0') ∷ [])
              (length-columns k (n / 10) [] ∙ sym (length-columns k (m / 10) []))
              (columns-lt k (n / 10) (m / 10) less (omega (arith, pow-suc 10 k)))
        | no same ↦
            let e : n / 10 ≡ m / 10 = omega arith in
            rw e (
              bytes_lt-append_left (columns k (m / 10) []) ((n % 10 + b'0') ∷ [])
                ((m % 10 + b'0') ∷ []) (last_column (n % 10) (m % 10) (omega arith)))
      ])

-- With ordered inserts, a key has the prefix and as many digits as the padding.
key_columns :
    (k n : ℕ)
    → n < 10 ^ suc k
    → build_key_name true false (pos (suc k)) n ≡ lit "user" ++ columns (suc k) n []
unfolding build_key_name
key_columns k n fits =
    let (e, _) = pad_to_string k n fits in
    let count : pos_part (pos (suc k) -ℤ pos (length (to_string n)))
        ≡ suc k - length (to_string n) =
      padding (suc k) (length (to_string n)) in
    rw count (append_assoc (lit "user") _ (to_string n) ∙ ap (◌++◌ (lit "user")) e)
  where
    padding : (a b : ℕ) → pos_part (pos a -ℤ pos b) ≡ a - b
    padding a b = unfold ◌-ℤ◌ in ground arith

-- With ordered inserts and enough padding for the numbers, all keys have the same length, and the
-- order of the keys as strings is the order of their numbers.
pub build_key_name_order :
    (k n m : ℕ)
    → n < m
    → m < 10 ^ suc k
    → (bytes_lt
          (build_key_name true false (pos (suc k)) n)
          (build_key_name true false (pos (suc k)) m)
        ≡ true)
      × (length (build_key_name true false (pos (suc k)) n) ≡ 4 + suc k)
      × (length (build_key_name true false (pos (suc k)) m) ≡ 4 + suc k)
build_key_name_order k n m lt fits =
    rw (key_columns k n (omega arith), key_columns k m fits)
      (
        bytes_lt-append_left (lit "user") _ _ (columns-lt (suc k) n m lt fits),
        omega (arith, length-columns (suc k) n []),
        omega (arith, length-columns (suc k) m []),
      )
