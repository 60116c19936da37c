-- ===== src/Measurements/Overlap/Steps.antt =====
-- What one access of a call of Report does to the counters and to what the call has made sure of.
use my_ycsb_cpp.Prelude.{
  ℕ, ◌+◌, ◌≤◌, ◌≡◌, refl, Bool, true, arith, Bool-cases, inl, inr, ◌⊎◌, ◌==◌, ltb, not, ◌&&◌,
}
use my_ycsb_cpp.Prelude.Bits.{u32, u64}
use my_ycsb_cpp.Measurements.Overlap.{
  Counters, Place, at_count, at_sum, at_min, swap_min, at_max, swap_max, returned, advance,
}

-- What a call has made sure of when it is at a place.
abbrev pub Holds : Counters → ℕ → Place → Type 0
Holds c l at_count = Unit
Holds c l at_sum = Unit
Holds c l at_min = Unit
Holds c l (swap_min prev) = c.min ≤ prev
Holds c l at_max = c.min ≤ l
Holds c l (swap_max prev) = (c.min ≤ l) × (prev ≤ c.max)
Holds c l returned = (c.min ≤ l) × (l ≤ c.max)

-- What a call has added to the count and to the sum.
abbrev pub counted : Place → ℕ
counted at_count = 0
counted _ = 1

abbrev pub summed : ℕ → Place → ℕ
summed l at_count = 0
summed l at_sum = 0
summed l _ = l

pub Holds-later :
    (c c' : Counters) (l : ℕ) (p : Place)
    → c'.min ≤ c.min
    → c.max ≤ c'.max
    → Holds c l p
    → Holds c' l p
Holds-later c c' l at_count a b h = tt
Holds-later c c' l at_sum a b h = tt
Holds-later c c' l at_min a b h = tt
Holds-later c c' l (swap_min prev) a b h = omega arith
Holds-later c c' l at_max a b h = omega arith
Holds-later c c' l (swap_max prev) a b h = (omega (arith, h.0), omega (arith, h.1))
Holds-later c c' l returned a b h = (omega (arith, h.0), omega (arith, h.1))

pub record Advanced (l : ℕ) (c : Counters) (p : Place) (c' : Counters) (p' : Place) : Type 0 where
  pub least : c'.min ≤ c.min
  pub most : c.max ≤ c'.max
  pub holds : Holds c l p → Holds c' l p'
  pub min_from : (c'.min ≡ c.min) ⊎ (l ≡ c'.min)
  pub max_from : (c'.max ≡ c.max) ⊎ (l ≡ c'.max)
  pub count : (n : ℕ) → c.count ≡ u32 (n + counted p) → c'.count ≡ u32 (n + counted p')
  pub sum : (n : ℕ) → c.sum ≡ u64 (n + summed l p) → c'.sum ≡ u64 (n + summed l p')

stays :
    (l : ℕ) (c : Counters) (p p' : Place)
    → (Holds c l p → Holds c l p')
    → counted p ≡ counted p'
    → summed l p ≡ summed l p'
    → Advanced l c p c p'
stays l c p p' h e s = record {
  least = omega arith;
  most = omega arith;
  holds = h;
  min_from = inl refl;
  max_from = inl refl;
  count = λ n q. omega (arith, e, q);
  sum = λ n q. omega (arith, s, q);
}

won_min :
    (fails : Bool) (l prev : ℕ) (c : Counters)
    → ltb l prev ≡ true
    → ((c.min == prev) && not fails) ≡ true
    → Advanced l c (swap_min prev) (record c { min = l }) at_max
won_min fails l prev c less same =
    let below : l ≤ c.min = ground arith in
    record {
      least = below;
      most = omega arith;
      holds = λ h. omega arith;
      min_from = inr refl;
      max_from = inl refl;
      count = λ n q. q;
      sum = λ n q. q;
    }

won_max :
    (fails : Bool) (l prev : ℕ) (c : Counters)
    → ltb prev l ≡ true
    → ((c.max == prev) && not fails) ≡ true
    → Advanced l c (swap_max prev) (record c { max = l }) returned
won_max fails l prev c less same =
    let above : c.max ≤ l = ground arith in
    record {
      least = omega arith;
      most = above;
      holds = λ h. (h.0, omega arith);
      min_from = inl refl;
      max_from = inr refl;
      count = λ n q. q;
      sum = λ n q. q;
    }

pub advance-Advanced :
    (fails : Bool) (l : ℕ) (c : Counters) (p : Place)
    → let r = advance fails l c p in Advanced l c p r.0 r.1
unfolding advance
advance-Advanced fails l c at_count = record {
  least = omega arith;
  most = omega arith;
  holds = λ h. h;
  min_from = inl refl;
  max_from = inl refl;
  count = λ n q. omega (arith, q);
  sum = λ n q. q;
}
advance-Advanced fails l c at_sum = record {
  least = omega arith;
  most = omega arith;
  holds = λ h. h;
  min_from = inl refl;
  max_from = inl refl;
  count = λ n q. q;
  sum = λ n q. omega (arith, q);
}
advance-Advanced fails l c at_min = stays l c at_min (swap_min c.min) (λ h. omega arith) refl refl
advance-Advanced fails l c (swap_min prev) = elim (Bool-cases (ltb l prev)) [
  | inl less ↦ elim (Bool-cases ((c.min == prev) && not fails)) [
    | inl same ↦ rw (less, same) (won_min fails l prev c less same)
    | inr other ↦
        rw (less, other) (stays l c (swap_min prev) (swap_min c.min) (λ h. omega arith) refl refl)
  ]
  | inr least ↦ rw least (
      stays l c (swap_min prev) at_max (λ h. let e : prev ≤ l = ground arith in omega (arith, e, h))
        refl refl)
]
advance-Advanced fails l c at_max =
    stays l c at_max (swap_max c.max) (λ h. (h, omega arith)) refl refl
advance-Advanced fails l c (swap_max prev) = elim (Bool-cases (ltb prev l)) [
  | inl less ↦ elim (Bool-cases ((c.max == prev) && not fails)) [
    | inl same ↦ rw (less, same) (won_max fails l prev c less same)
    | inr other ↦
        rw (less, other)
          (stays l c (swap_max prev) (swap_max c.max) (λ h. (h.0, omega arith)) refl refl)
  ]
  | inr most ↦ rw most (
      stays l c (swap_max prev) returned
        (λ h. let e : l ≤ prev = ground arith in (h.0, omega (arith, e, h.1))) refl refl)
]
advance-Advanced fails l c returned = stays l c returned returned (λ h. h) refl refl
