-- ===== src/Prelude/Outcome.antt =====
-- How a run of code ends: with a value, with an exception, in undefined behaviour, or not before
-- the fuel of its loop is used up.
use mathlib.Core.Path.{◌≡◌, refl, ap}
use my_ycsb_cpp.Prelude.Result.{Thrown}

pub data Outcome {ℓ} (A : Type ℓ) : Type ℓ where
  done : A → Outcome A
  thrown : Thrown → Outcome A
  undefined stuck : Outcome A

infixl 5 ◌>>=◌
abbrev pub ◌>>=◌ {ℓ κ} : {A : Type ℓ} {B : Type κ} → Outcome A → (A → Outcome B) → Outcome B
done a >>= f = f a
thrown e >>= f = thrown e
undefined >>= f = undefined
stuck >>= f = stuck

pub after_done {ℓ κ} :
    {A : Type ℓ} {B : Type κ} {m : Outcome A} {a : A} (f : A → Outcome B)
    → m ≡ done a
    → (m >>= f) ≡ f a
after_done f e = ap (λ o. o >>= f) e

-- Two runs return the same values, whatever else they may do.
abbrev pub SameDone {ℓ} : {A : Type ℓ} → Outcome A → Outcome A → Type ℓ
SameDone m m' = (((a : _) → m ≡ done a → m' ≡ done a) × ((a : _) → m' ≡ done a → m ≡ done a))

pub SameDone-bind {ℓ κ} :
    {A : Type ℓ} {B : Type κ} (m : Outcome A) (f g : A → Outcome B)
    → ((a : A) → SameDone (f a) (g a))
    → SameDone (m >>= f) (m >>= g)
SameDone-bind (done a) f g h = h a
SameDone-bind (thrown e) f g h = (λ b p. p, λ b p. p)
SameDone-bind undefined f g h = (λ b p. p, λ b p. p)
SameDone-bind stuck f g h = (λ b p. p, λ b p. p)

-- What a chain that returned passed through.
pub done_elim {ℓ κ ν} :
    {A : Type ℓ} {B : Type κ} {C : Type ν} (m : Outcome A) (f : A → Outcome B) {b : B}
    → (m >>= f) ≡ done b
    → ((a : A) → m ≡ done a → f a ≡ done b → C)
    → C
done_elim (done a) f e k = k a refl e
done_elim (thrown t) f e k = cc
done_elim undefined f e k = cc
done_elim stuck f e k = cc

pub done_injective {ℓ} : {A : Type ℓ} {a b : A} → done a ≡ done b → a ≡ b
done_injective e = cc
