-- ===== src/Workload/Keys/Decimal.antt =====
-- A number printed in decimal and filled up with zeros on the left has its digits in columns.
use native.Mathlib.Nat.{pow-suc}
use my_ycsb_cpp.Prelude.{
  ℕ, zero, suc, ◌+◌, ◌-◌, ◌/◌, ◌%◌, ◌^◌, ◌≤◌, ◌<◌, ◌≡◌, refl, sym, ap, ◌∙◌, [], ◌∷◌, ◌++◌,
  append_assoc, replicate, length, ltb, arith, Bool-cases, inl, inr,
}
use my_ycsb_cpp.Prelude.Bytes.{Bytes}
use my_ycsb_cpp.Utils.Text.Numbers.{digits_onto, to_string}

-- The `k` lowest digits of `n` before `acc`.
unfoldable pub columns : ℕ → ℕ → Bytes → Bytes
columns zero n acc = acc
columns (suc k) n acc = columns k (n / 10) ((n % 10 + b'0') ∷ acc)

replicate_snoc :
    (k : ℕ) (a : ℕ) (acc : Bytes) → replicate k a ++ a ∷ acc ≡ a ∷ (replicate k a ++ acc)
replicate_snoc zero a acc = refl
replicate_snoc (suc k) a acc = ap (◌∷◌ a) (replicate_snoc k a acc)

columns-zero : (k : ℕ) (acc : Bytes) → columns k 0 acc ≡ replicate k b'0' ++ acc
unfolding columns
columns-zero zero acc = refl
columns-zero (suc k) acc = columns-zero k (b'0' ∷ acc) ∙ replicate_snoc k b'0' acc

pub columns-append : (k n : ℕ) (acc : Bytes) → columns k n acc ≡ columns k n [] ++ acc
unfolding columns
columns-append zero n acc = refl
columns-append (suc k) n acc =
    columns-append k (n / 10) ((n % 10 + b'0') ∷ acc)
    ∙ sym (append_assoc (columns k (n / 10) []) ((n % 10 + b'0') ∷ []) acc)
    ∙ ap (λ (s : Bytes). s ++ acc) (sym (columns-append k (n / 10) ((n % 10 + b'0') ∷ [])))

pub length-columns : (k n : ℕ) (acc : Bytes) → length (columns k n acc) ≡ k + length acc
unfolding columns
length-columns zero n acc = omega arith
length-columns (suc k) n acc = omega (arith, length-columns k (n / 10) ((n % 10 + b'0') ∷ acc))

digits_onto_small :
    (fuel n : ℕ) (acc : Bytes) → n < 10 → digits_onto (suc fuel) n acc ≡ (n + b'0') ∷ acc
unfolding digits_onto
digits_onto_small fuel n acc h = ground arith

digits_onto_large :
    (fuel n : ℕ) (acc : Bytes)
    → 10 ≤ n
    → digits_onto (suc fuel) n acc ≡ digits_onto fuel (n / 10) ((n % 10 + b'0') ∷ acc)
unfolding digits_onto
digits_onto_large fuel n acc h = ground arith

small_columns :
    (k n : ℕ) (acc : Bytes) → n < 10 → replicate k b'0' ++ (n + b'0') ∷ acc ≡ columns (suc k) n acc
unfolding columns
small_columns k n acc h =
    let high : n / 10 ≡ 0 = omega arith in
    let low : n % 10 ≡ n = omega arith in rw (high, low) (sym (columns-zero k ((n + b'0') ∷ acc)))

pub columns-suc :
    (k n : ℕ) (acc : Bytes) → columns k (n / 10) ((n % 10 + b'0') ∷ acc) ≡ columns (suc k) n acc
unfolding columns
columns-suc k n acc = refl

-- The digits of `n`, filled up with zeros to `k` columns.
digits_onto-columns :
    (fuel k n : ℕ) (acc : Bytes)
    → n < fuel
    → n < 10 ^ suc k
    → (zeros : ℕ) × (replicate zeros b'0' ++ digits_onto fuel n acc ≡ columns (suc k) n acc)
      × (zeros + length (digits_onto fuel n acc) ≡ suc k + length acc)
digits_onto-columns zero k n acc h fits = absurd (omega arith)
digits_onto-columns (suc fuel) zero n acc h fits = (
  0,
  digits_onto_small fuel n acc (omega arith) ∙ small_columns 0 n acc (omega arith),
  omega (arith, ap length (digits_onto_small fuel n acc (omega arith))),
)
digits_onto-columns (suc fuel) (suc k) n acc h fits = elim (Bool-cases (ltb n 10)) [
  | inl small ↦ (
    suc k,
    ap (◌++◌ (replicate (suc k) b'0')) (digits_onto_small fuel n acc (ground arith))
        ∙ small_columns (suc k) n acc (ground arith),
    omega (arith, ap length (digits_onto_small fuel n acc (ground arith))),
  )
  | inr large ↦
      let acc' = (n % 10 + b'0') ∷ acc in
      let fits' : n / 10 < 10 ^ suc k = omega (arith, pow-suc 10 (suc k)) in
      let (zeros, e, size) = digits_onto-columns fuel k (n / 10) acc' (ground arith) fits' in
      (
        zeros,
        ap (◌++◌ (replicate zeros b'0')) (digits_onto_large fuel n acc (ground arith))
            ∙ e
            ∙ columns-suc (suc k) n acc,
        omega (arith, ap length (digits_onto_large fuel n acc (ground arith)), size),
      )
]

pub pad_to_string :
    (k n : ℕ)
    → n < 10 ^ suc k
    → (replicate (suc k - length (to_string n)) b'0' ++ to_string n ≡ columns (suc k) n [])
      × (length (to_string n) ≤ suc k)
unfolding to_string
pad_to_string k n fits =
    let (zeros, e, size) = digits_onto-columns (n + 1) k n [] (omega arith) fits in
    let count : suc k - length (digits_onto (n + 1) n []) ≡ zeros = omega arith in
    (rw count e, omega arith)
