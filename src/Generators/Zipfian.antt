-- ===== src/Generators/Zipfian.antt =====
-- The class ZipfianGenerator of core/zipfian_generator.h, over any `double`. The result of
-- ThreadLocalRandomDouble is an argument, and asserts are off, as in a release build. Calls do not
-- overlap: the code's lock covers the recomputation and not the use of its results.
pub mod Zeta
use my_ycsb_cpp.Prelude.{ℕ, zero, suc, ◌+◌, ◌-◌, ◌^◌, Bool, true, false, ◌==◌, ltb, if◌then◌else◌}
use my_ycsb_cpp.Prelude.Bits.{u64, sub_u64}
use my_ycsb_cpp.Prelude.Float.{Float}

pub record Zipfian (fl : Float) : Type 0 where
  pub items : ℕ
  pub base : ℕ
  pub theta : fl.F
  pub zeta_n : fl.F
  pub eta : fl.F
  pub alpha : fl.F
  pub zeta_2 : fl.F
  pub count_for_zeta : ℕ
  pub last_value : ℕ
  pub allow_count_decrease : Bool

module _ (fl : Float) where
  open fl use {F, dec, of_ℕ, to_u64, add, sub, mul, div, pow, lt}

  abbrev pub zipfian_const : F
  zipfian_const = dec 99 2

  -- The loop of Zeta, with the rounds left before `i` passes `cur_num`.
  unfoldable pub zeta_loop : ℕ → ℕ → F → F → F
  zeta_loop zero i theta z = z
  zeta_loop (suc rounds) i theta z =
      zeta_loop rounds (i + 1) theta (add z (div (of_ℕ 1) (pow (of_ℕ i) theta)))

  unfoldable pub zeta_from : ℕ → ℕ → F → F → F
  unfolding zeta_loop
  zeta_from last_num cur_num theta last_zeta =
      zeta_loop (cur_num - last_num) (last_num + 1) theta last_zeta

  unfoldable pub zeta : ℕ → F → F
  unfolding zeta_from
  zeta num theta = zeta_from 0 num theta (of_ℕ 0)

  unfoldable pub compute_eta : ℕ → F → F → F → F
  compute_eta items theta zeta_2 zeta_n =
      div (sub (of_ℕ 1) (pow (div (dec 2 0) (of_ℕ items)) (sub (of_ℕ 1) theta)))
        (sub (of_ℕ 1) (div zeta_2 zeta_n))

  -- The recomputation at the head of Next(num).
  unfoldable pub recompute : Zipfian fl → ℕ → Zipfian fl
  unfolding zeta_from compute_eta
  recompute g num =
      if num == g.count_for_zeta
      then g
      else if ltb g.count_for_zeta num
      then (let z = zeta_from g.count_for_zeta num g.theta g.zeta_n in
          record g {
            zeta_n = z;
            count_for_zeta = num;
            eta = compute_eta g.items g.theta g.zeta_2 z;
          })
      else g

  -- The value that Next(num) returns, from the random number `u`.
  unfoldable pub draw : Zipfian fl → ℕ → F → ℕ
  draw g num u =
      let uz = mul u g.zeta_n in
      if lt uz (dec 1 0)
      then g.base
      else if lt uz (add (dec 1 0) (pow (dec 5 1) g.theta))
      then u64 (g.base + 1)
      else to_u64 (
          add (of_ℕ g.base) (mul (of_ℕ num) (pow (add (sub (mul g.eta u) g.eta) (of_ℕ 1)) g.alpha)))

  -- Next(num)
  unfoldable pub next_of : Zipfian fl → ℕ → F → ℕ × Zipfian fl
  unfolding recompute draw
  next_of g num u =
      let g' = recompute g num in
      let value = draw g' num u in (value, record g' { last_value = value })

  -- Next()
  unfoldable pub next : Zipfian fl → F → ℕ × Zipfian fl
  unfolding next_of
  next g u = next_of g g.items u

  unfoldable pub last : Zipfian fl → ℕ
  last g = g.last_value

  -- The constructor of four arguments, which calls Next() once, with the random number `u`.
  unfoldable pub new_with : ℕ → ℕ → F → F → F → Zipfian fl
  unfolding zeta compute_eta next
  new_with min max theta zeta_n u =
      let items = u64 (sub_u64 max min + 1) in
      let zeta_2 = zeta 2 theta in
      let made : Zipfian fl = record {
        items = items;
        base = min;
        theta = theta;
        zeta_n = zeta_n;
        eta = compute_eta items theta zeta_2 zeta_n;
        alpha = div (dec 1 0) (sub (dec 1 0) theta);
        zeta_2 = zeta_2;
        count_for_zeta = items;
        last_value = 0;
        allow_count_decrease = false;
      } in
      (next made u).1

  -- The constructors of three arguments and of one.
  unfoldable pub new : ℕ → ℕ → F → F → Zipfian fl
  unfolding new_with zeta
  new min max theta u = new_with min max theta (zeta (u64 (sub_u64 max min + 1)) theta) u

  unfoldable pub new_of_items : ℕ → F → Zipfian fl
  unfolding new
  new_of_items num_items u = new 0 (sub_u64 num_items 1) zipfian_const u
