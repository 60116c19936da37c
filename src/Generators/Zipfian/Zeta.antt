-- ===== src/Generators/Zipfian/Zeta.antt =====
-- Zeta is recomputed from the last number of items, and agrees with its sum from the start.
use my_ycsb_cpp.Prelude.{
  ℕ, zero, suc, ◌+◌, ◌-◌, ◌≤◌, ◌≡◌, refl, ap, ◌∙◌, Bool-cases, ◌==◌, ltb, arith, inl, inr, max,
}
use my_ycsb_cpp.Prelude.Float.{Float}
use my_ycsb_cpp.Generators.Zipfian.{
  Zipfian, zeta_loop, zeta_from, zeta, compute_eta, recompute, next_of,
}

module _ (fl : Float) where
  open fl use {F, of_ℕ, add, div, pow}

  abbrev zeta_term : F → ℕ → F → F
  zeta_term z i theta = add z (div (of_ℕ 1) (pow (of_ℕ i) theta))

  zeta_loop-add :
      (m n i j : ℕ) (theta z : F)
      → i + m ≡ j
      → zeta_loop fl n j theta (zeta_loop fl m i theta z) ≡ zeta_loop fl (m + n) i theta z
  unfolding zeta_loop
  zeta_loop-add zero n i j theta z e =
      let same : j ≡ i = omega arith in
      let none_more : 0 + n ≡ n = omega arith in rw (same, none_more) refl
  zeta_loop-add (suc m) n i j theta z e =
      let more : suc m + n ≡ suc (m + n) = omega arith in
      rw more (zeta_loop-add m n (i + 1) j theta (zeta_term z i theta) (omega arith))

  -- Going on from a smaller number of items gives the sum from the start.
  pub zeta_from-zeta :
      (last_num cur_num : ℕ) (theta : F)
      → last_num ≤ cur_num
      → zeta_from fl last_num cur_num theta (zeta fl last_num theta) ≡ zeta fl cur_num theta
  unfolding zeta zeta_from
  zeta_from-zeta last_num cur_num theta h =
      let e : last_num - 0 + (cur_num - last_num) ≡ cur_num - 0 = omega arith in
      zeta_loop-add (last_num - 0) (cur_num - last_num) (0 + 1) (last_num + 1) theta (of_ℕ 0)
        (omega arith)
      ∙ ap (λ (n : ℕ). zeta_loop fl n (0 + 1) theta (of_ℕ 0)) e

  -- The cached zeta and eta are those of the cached number of items.
  pub record IsCurrent (g : Zipfian fl) : Type 0 where
    pub sum : g.zeta_n ≡ zeta fl g.count_for_zeta g.theta
    pub shape : g.eta ≡ compute_eta fl g.items g.theta g.zeta_2 g.zeta_n

  recompute-IsCurrent :
      (g : Zipfian fl) (num : ℕ)
      → IsCurrent g
      → IsCurrent (recompute fl g num)
        × ((recompute fl g num).count_for_zeta ≡ max num g.count_for_zeta)
        × ((recompute fl g num).theta ≡ g.theta)
  unfolding recompute
  recompute-IsCurrent g num c = elim (Bool-cases (num == g.count_for_zeta)) [
    | inl same ↦ rw same (c, ground arith, refl)
    | inr other ↦ elim (Bool-cases (ltb g.count_for_zeta num)) [
      | inl more ↦
          rw (other, more)
            (
              record {
                sum =
                    ap (zeta_from fl g.count_for_zeta num g.theta) c.sum
                    ∙ zeta_from-zeta g.count_for_zeta num g.theta (ground arith);
                shape = refl;
              },
              ground arith,
              refl,
            )
      | inr fewer ↦ rw (other, fewer) (c, ground arith, refl)
    ]
  ]

  -- Next(num) keeps the cache right, whatever the arithmetic of `double`: after it, zeta is the sum
  -- over the largest number of items asked for so far, as if it had been computed from the start.
  pub next_of-IsCurrent :
      (g : Zipfian fl) (num : ℕ) (u : F)
      → IsCurrent g
      → IsCurrent (next_of fl g num u).1
        × ((next_of fl g num u).1.zeta_n ≡ zeta fl (max num g.count_for_zeta) g.theta)
        × ((next_of fl g num u).1.count_for_zeta ≡ max num g.count_for_zeta)
  unfolding next_of
  next_of-IsCurrent g num u c =
      let (c', e, same) = recompute-IsCurrent g num c in
      (record { sum = c'.sum; shape = c'.shape }, c'.sum ∙ rw (e, same) refl, e)
