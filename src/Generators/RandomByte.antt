-- ===== src/Generators/RandomByte.antt =====
-- The class RandomByteGenerator of core/random_byte_generator.h. The number that
-- ThreadLocalRandomInt returns is an argument, read when the buffer is used up.
pub mod Printable
use my_ycsb_cpp.Prelude.{
  ℕ, zero, suc, ◌+◌, ◌-◌, ◌/◌, ◌%◌, ◌^◌, List, [], ◌∷◌, ◌==◌, bit_and, if◌then◌else◌,
}

-- The characters are bytes; an entry that was never written is read as 0.
pub record RandomByte : Type 0 where
  pub buf : List ℕ
  pub off : ℕ

unfoldable pub new : RandomByte
new = record { buf = []; off = 6 }

unfoldable pub buf_at : List ℕ → ℕ → ℕ
buf_at [] i = 0
buf_at (b ∷ bs) zero = b
buf_at (b ∷ bs) (suc i) = buf_at bs i

-- The six characters made of one number: `(bytes >> s) & mask`, plus a space.
unfoldable pub fill : ℕ → List ℕ
fill bytes =
    (bit_and bytes 31 + b' ')
    ∷ (bit_and (bytes / 2 ^ 5) 63 + b' ')
    ∷ (bit_and (bytes / 2 ^ 10) 95 + b' ')
    ∷ (bit_and (bytes / 2 ^ 15) 31 + b' ')
    ∷ (bit_and (bytes / 2 ^ 20) 63 + b' ')
    ∷ (bit_and (bytes / 2 ^ 25) 95 + b' ')
    ∷ []

unfoldable pub refill : RandomByte → ℕ → RandomByte
unfolding fill
refill g bytes = if g.off == 6 then record { buf = fill bytes; off = 0 } else g

unfoldable pub next : RandomByte → ℕ → ℕ × RandomByte
unfolding refill buf_at
next g bytes = let g' = refill g bytes in (buf_at g'.buf g'.off, record g' { off = g'.off + 1 })

unfoldable pub last : RandomByte → ℕ
unfolding buf_at
last g = buf_at g.buf ((g.off + 6 - 1) % 6)
