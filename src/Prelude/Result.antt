-- ===== src/Prelude/Result.antt =====
-- What a call that may throw returns: `utils::Exception` with its message, or one of the standard
-- library's exceptions, which no handler of the program catches.
use mathlib.Core.Path.{◌≡◌, refl}
use mathlib.Core.Bool.{Bool, true, false}
use mathlib.Core.Option.{Option, none, some}
use my_ycsb_cpp.Prelude.Bytes.{Bytes}

pub data Thrown : Type 0 where
  exception : Bytes → Thrown
  invalid_argument out_of_range : Thrown

pub data Result {ℓ} (A : Type ℓ) : Type ℓ where
  ok : A → Result A
  err : Thrown → Result A

-- An exception skips the rest of the code.
infixl 5 ◌>>=◌
abbrev pub ◌>>=◌ {ℓ₁ ℓ₂} : {T : Type ℓ₁} {U : Type ℓ₂} → Result T → (T → Result U) → Result U
err thrown >>= rest = err thrown
ok value >>= rest = rest value

-- `if (!condition) throw thrown;`
abbrev pub require : Bool → Thrown → Result (Unit {0})
require false thrown = err thrown
require true thrown = ok tt

-- std::map::at
abbrev pub or_throw {ℓ} : {A : Type ℓ} → Option A → Thrown → Result A
or_throw none e = err e
or_throw (some a) e = ok a

-- What a chain that ended passed through.
pub ok_elim {ℓ₁ ℓ₂ ℓ₃} :
    {T : Type ℓ₁} {U : Type ℓ₂} {C : Type ℓ₃} (first : Result T) (rest : T → Result U) {u : U}
    → (first >>= rest) ≡ ok u
    → ((t : T) → first ≡ ok t → rest t ≡ ok u → C)
    → C
ok_elim (err thrown) rest h k = cc
ok_elim (ok t) rest h k = k t refl h

-- A part of what two returned values agree on.
pub ok_injective {ℓ κ} : {A : Type ℓ} {B : Type κ} (f : A → B) {a b : A} → ok a ≡ ok b → f a ≡ f b
ok_injective f h = cc
