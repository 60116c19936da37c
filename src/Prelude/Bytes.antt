-- ===== src/Prelude/Bytes.antt =====
-- Strings as lists of bytes: literals, comparison, and std::to_string.
use Prim.Native.Nat.{ℕ}
use Prim.Native.Char.{code}
use Prim.Native.String.{String}
use mathlib.Core.Path.{◌≡◌, refl}
use mathlib.Core.Logic.{◌↔◌}
use mathlib.Core.Bool.{Bool, true, false, ◌&&◌}
use mathlib.Core.List.{List, [], ◌∷◌, ◌++◌}
use native.Mathlib.Omega.{arith}
use my_ycsb_cpp.Prelude.Tests.{◌==◌, ltb, if◌then◌else◌}
use my_ycsb_cpp.Prelude.Lists.{length}

abbrev pub Bytes : Type 0
Bytes = List ℕ

-- The bytes of a literal.
abbrev pub lit : String → Bytes
lit String.[] = []
lit (String.◌∷◌ c s) = code c ∷ lit s

-- std::string's operator==
unfoldable pub bytes_eq : Bytes → Bytes → Bool
bytes_eq [] [] = true
bytes_eq [] (y ∷ ys) = false
bytes_eq (x ∷ xs) [] = false
bytes_eq (x ∷ xs) (y ∷ ys) = (x == y) && bytes_eq xs ys

pub bytes_eq→eq : (xs ys : Bytes) → bytes_eq xs ys ≡ true → xs ≡ ys
unfolding bytes_eq
bytes_eq→eq [] [] h = refl
bytes_eq→eq [] (y ∷ ys) h = cc
bytes_eq→eq (x ∷ xs) [] h = cc
bytes_eq→eq (x ∷ xs) (y ∷ ys) h = ground (arith, bytes_eq→eq xs ys)

pub bytes_eq_refl : (xs : Bytes) → bytes_eq xs xs ≡ true
unfolding bytes_eq
bytes_eq_refl [] = refl
bytes_eq_refl (x ∷ xs) = ground (arith, bytes_eq_refl xs)

pub eq→bytes_eq : (xs ys : Bytes) → xs ≡ ys → bytes_eq xs ys ≡ true
eq→bytes_eq xs ys h = subst_right h
  where
    subst_right : xs ≡ ys → bytes_eq xs ys ≡ true
    subst_right e = rw e (bytes_eq_refl ys)

pub bytes_eq_iff : (xs ys : Bytes) → (bytes_eq xs ys ≡ true) ↔ (xs ≡ ys)
bytes_eq_iff xs ys = (bytes_eq→eq xs ys, eq→bytes_eq xs ys)

-- std::string's operator<, on bytes read as unsigned.
unfoldable pub bytes_lt : Bytes → Bytes → Bool
bytes_lt [] [] = false
bytes_lt [] (y ∷ ys) = true
bytes_lt (x ∷ xs) [] = false
bytes_lt (x ∷ xs) (y ∷ ys) =
    let rest = bytes_lt xs ys in if ltb x y then true else if x == y then rest else false

pub bytes_lt_irrefl : (xs : Bytes) → bytes_lt xs xs ≡ false
unfolding bytes_lt
bytes_lt_irrefl [] = refl
bytes_lt_irrefl (x ∷ xs) = ground (arith, bytes_lt_irrefl xs)

pub bytes_lt-append_left :
    (p xs ys : Bytes) → bytes_lt xs ys ≡ true → bytes_lt (p ++ xs) (p ++ ys) ≡ true
unfolding bytes_lt
bytes_lt-append_left [] xs ys h = h
bytes_lt-append_left (c ∷ p) xs ys h = ground (arith, bytes_lt-append_left p xs ys h)

pub bytes_lt-append_right :
    (xs ys us vs : Bytes)
    → length xs ≡ length ys
    → bytes_lt xs ys ≡ true
    → bytes_lt (xs ++ us) (ys ++ vs) ≡ true
unfolding bytes_lt
bytes_lt-append_right [] [] us vs e h = cc
bytes_lt-append_right [] (y ∷ ys) us vs e h = absurd (omega arith)
bytes_lt-append_right (x ∷ xs) [] us vs e h = absurd (omega arith)
bytes_lt-append_right (x ∷ xs) (y ∷ ys) us vs e h =
    ground (arith, bytes_lt-append_right xs ys us vs)
