-- ===== src/Client/Split.antt =====
-- The shares of the threads.
use native.Mathlib.Nat.{mod-lt, div-mul-le_self, div-add-mod, mod-eq-sub-div-mul}
use my_ycsb_cpp.Prelude.{
  ℕ, zero, suc, ◌+◌, ◌*◌, ◌/◌, ◌%◌, ◌≤◌, ◌<◌, ◌≡◌, refl, ap, ◌∙◌, sym, ltb, if◌then◌else◌, arith,
  min,
}
use my_ycsb_cpp.Prelude.Int.{
  ℤ, pos, negsuc, pos_part, ◌+ℤ◌, ◌*ℤ◌, ◌-ℤ◌, tdiv, *ℤ-pos, +ℤ-pos, -ℤ-pos,
}
use my_ycsb_cpp.Client.{share}

abbrev pub plain_share : ℕ → ℕ → ℕ → ℕ
plain_share total threads i =
    if ltb i (total % threads) then total / threads + 1 else total / threads

pub share-pos :
    (total threads i : ℕ)
    → 0 < threads
    → share (pos total) threads i ≡ pos (plain_share total threads i)
unfolding share
share-pos total threads i some =
    let q : tdiv (pos total) threads ≡ pos (total / threads) = unfold tdiv in refl in
    let r : pos total -ℤ pos (total / threads * threads) ≡ pos (total % threads) =
      -ℤ-pos total (total / threads * threads) (div-mul-le_self total threads)
      ∙ ap pos (sym (mod-eq-sub-div-mul total threads)) in
    rw (q, *ℤ-pos (total / threads) threads, r, +ℤ-pos (total / threads) 1) (ground arith)

-- The shares of the first `n` threads.
abbrev pub shares : ℤ → ℕ → ℕ → ℕ
shares total threads zero = 0
shares total threads (suc n) = shares total threads n + pos_part (share total threads n)

shares_lem :
    (total threads n : ℕ)
    → 0 < threads
    → shares (pos total) threads n ≡ n * (total / threads) + min n (total % threads)
shares_lem total threads zero some = omega arith
shares_lem total threads (suc n) some =
    grind (arith, shares_lem total threads n some, share-pos total threads n some)

-- The shares of all threads are the whole, and no two of them differ by more than one.
pub shares-total :
    (total threads i j : ℕ)
    → 0 < threads
    → (shares (pos total) threads threads ≡ total)
      × (share (pos total) threads i ≡ pos (pos_part (share (pos total) threads i)))
      × (pos_part (share (pos total) threads i) ≤ pos_part (share (pos total) threads j) + 1)
shares-total total threads i j some = (
  shares_lem total threads threads some
      ∙ omega (arith, div-add-mod total threads, mod-lt total some),
  rw (share-pos total threads i some) refl,
  rw (share-pos total threads i some, share-pos total threads j some) (ground arith),
)

share-negsuc : (total threads i : ℕ) → pos_part (share (negsuc total) threads i) ≡ 0
unfolding share tdiv ◌*ℤ◌ ◌-ℤ◌ ◌+ℤ◌
share-negsuc total threads i = ground (arith, div-mul-le_self (suc total) threads)

shares-negsuc : (total threads n : ℕ) → shares (negsuc total) threads n ≡ 0
shares-negsuc total threads zero = refl
shares-negsuc total threads (suc n) =
    omega (arith, shares-negsuc total threads n, share-negsuc total threads n)

-- A total below zero is shared as no operations.
pub shares_all :
    (total : ℤ) (threads : ℕ) → 0 < threads → shares total threads threads ≡ pos_part total
shares_all (pos total) threads some = (shares-total total threads 0 0 some).0
shares_all (negsuc total) threads some = shares-negsuc total threads threads

pub shares_next :
    (total : ℤ) (threads n : ℕ)
    → shares total threads (n + 1) ≡ shares total threads n + pos_part (share total threads n)
shares_next total threads n =
    let next : n + 1 ≡ suc n = omega arith in ap (shares total threads) next
