-- ===== src/Generators/Discrete/Choices.antt =====
-- Which value Next returns, whatever the arithmetic of `double` does.
use my_ycsb_cpp.Prelude.{
  ◌≡◌, refl, true, false, List, [], ◌∷◌, ◌++◌, some, ◌⊎◌, inl, inr, arith, Bool-cases, Option-cases,
}
use my_ycsb_cpp.Prelude.Float.{Float}
use my_ycsb_cpp.Generators.Discrete.{DiscreteGenerator, add_value, pick, next}

module _ (fl : Float) {V : Type 0} where
  open fl use {F, sub, div, lt}

  -- The value is one of those that were added.
  abbrev pub Among : V → List (V × F) → Type 0
  Among v [] = ⊥
  Among v ((u, w) ∷ rest) = (u ≡ v) ⊎ Among v rest

  Among-append : (v : V) (xs ys : List (V × F)) → Among v xs → Among v (xs ++ ys)
  Among-append v [] ys h = absurd h
  Among-append v (x ∷ xs) ys (inl e) = inl e
  Among-append v (x ∷ xs) ys (inr h) = inr (Among-append v xs ys h)

  Among-snoc : (v : V) (w : F) (xs : List (V × F)) → Among v (xs ++ (v, w) ∷ [])
  Among-snoc v w [] = inl refl
  Among-snoc v w (x ∷ xs) = inr (Among-snoc v w xs)

  -- What is left of the chooser after the loop has passed some of the values.
  abbrev pub left_after : F → F → List (V × F) → F
  left_after sum chooser [] = chooser
  left_after sum chooser ((v, w) ∷ passed) = left_after sum (sub chooser (div w sum)) passed

  -- The chooser is not below the share of any value passed.
  abbrev pub PassedBy : F → F → List (V × F) → Type 0
  PassedBy sum chooser [] = Unit
  PassedBy sum chooser ((v, w) ∷ passed) =
      (lt chooser (div w sum) ≡ false) × PassedBy sum (sub chooser (div w sum)) passed

  -- The loop picks the first value whose share is above what the values before it have left of the
  -- chooser.
  pick_first :
      (passed : List (V × F)) (v : V) (w : F) (rest : List (V × F)) (sum chooser : F)
      → PassedBy sum chooser passed
      → lt (left_after sum chooser passed) (div w sum) ≡ true
      → pick fl (passed ++ (v, w) ∷ rest) sum chooser ≡ some v
  unfolding pick
  pick_first [] v w rest sum chooser p h = rw h
  pick_first ((u, x) ∷ passed) v w rest sum chooser p h =
      rw p.0 (pick_first passed v w rest sum (sub chooser (div x sum)) p.1 h)

  pick-Among :
      (values : List (V × F)) (sum chooser : F) (v : V)
      → pick fl values sum chooser ≡ some v
      → Among v values
  unfolding pick
  pick-Among [] sum chooser v h = cc
  pick-Among ((u, w) ∷ rest) sum chooser v h = elim (Bool-cases (lt chooser (div w sum))) [
    | inl below ↦ inl (ground (arith, below))
    | inr above ↦ inr (pick-Among rest sum (sub chooser (div w sum)) v (rw above at h))
  ]

  -- Once a value was added, `last_` is one of the values.
  abbrev pub IsReady : DiscreteGenerator fl V → Type 0
  IsReady g = (v : V) × (g.last ≡ some v) × Among v g.values

  pub add_value-IsReady :
      (g : DiscreteGenerator fl V) (v : V) (w : F)
      → (g.values ≡ []) ⊎ IsReady g
      → IsReady (add_value fl g v w)
  unfolding add_value
  add_value-IsReady g v w h = split g.values refl h
    where
      split :
          (values : List (V × F))
          → g.values ≡ values
          → (g.values ≡ []) ⊎ IsReady g
          → IsReady (add_value fl g v w)
      split [] e h = (v, ground arith, Among-snoc v w g.values)
      split (x ∷ xs) e (inl none_yet) = absurd (cc)
      split (x ∷ xs) e (inr (u, is_last, among)) =
          (u, ground arith, Among-append u g.values ((v, w) ∷ []) among)

  -- With a value added, Next returns one of the values that were added, for every chooser and
  -- however the arithmetic rounds; Last returns it again, and no value or weight changes.
  pub next-IsReady :
      (g : DiscreteGenerator fl V) (chooser : F)
      → IsReady g
      → (v : V) × ((next fl g chooser).0 ≡ some v)
        × Among v g.values
        × ((next fl g chooser).1.last ≡ some v)
        × ((next fl g chooser).1.values ≡ g.values)
        × ((next fl g chooser).1.sum ≡ g.sum)
  unfolding next
  next-IsReady g chooser (u, is_last, among) =
      elim (Option-cases (pick fl g.values g.sum chooser)) [
        | inl e ↦ rw (e, next) (u, is_last, among, is_last, refl, refl)
        | inr (v, e) ↦
            rw (e, next) (v, refl, pick-Among g.values g.sum chooser v e, refl, refl, refl)
      ]
