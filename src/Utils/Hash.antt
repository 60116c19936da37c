-- ===== src/Utils/Hash.antt =====
-- FNVHash64 and Hash of utils/utils.h.
use my_ycsb_cpp.Prelude.{ℕ, zero, suc, ◌*◌, ◌/◌, ◌%◌, ◌^◌, bit_xor}
use my_ycsb_cpp.Prelude.Bits.{u64}

abbrev fnv_offset_basis64 : ℕ
fnv_offset_basis64 = 0xCBF29CE484222325

abbrev fnv_prime64 : ℕ
fnv_prime64 = 1099511628211

-- The loop of FNVHash64, with the rounds left, `val` and `hash`.
fnv_loop : ℕ → ℕ → ℕ → ℕ
fnv_loop zero val hash = hash
fnv_loop (suc n) val hash =
    fnv_loop n (val / 2 ^ 8) (u64 (bit_xor hash (val % 2 ^ 8) * fnv_prime64))

unfoldable pub fnv_hash64 : ℕ → ℕ
unfolding fnv_loop
fnv_hash64 val = fnv_loop 8 val fnv_offset_basis64

unfoldable pub hash : ℕ → ℕ
hash val = fnv_hash64 val
