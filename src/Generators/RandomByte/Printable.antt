-- ===== src/Generators/RandomByte/Printable.antt =====
-- The bytes that the generator returns.
use my_ycsb_cpp.Prelude.{
  ℕ, ◌+◌, ◌-◌, ◌%◌, ◌/◌, ◌^◌, ◌≤◌, ◌<◌, ◌≡◌, refl, List, [], ◌∷◌, arith, ◌==◌, false, All, length,
  Bool-cases, inl, inr,
}
use my_ycsb_cpp.Prelude.Bits.{bit_and-le}
use my_ycsb_cpp.Generators.RandomByte.{RandomByte, new, fill, buf_at, refill, next, last}

abbrev pub IsGraphic : ℕ → Type 0
IsGraphic b = (b' ' ≤ b) × (b ≤ 127)

-- The buffer is either used up or holds six bytes from the space to 127.
pub record IsValid (g : RandomByte) : Type 0 where
  pub within : g.off ≤ 6
  pub filled : g.off < 6 → (length g.buf ≡ 6) × All IsGraphic g.buf

pub new-IsValid : IsValid new
unfolding new
new-IsValid = record { within = omega arith; filled = λ h. absurd (omega arith) }

fill-IsGraphic : (bytes : ℕ) → (length (fill bytes) ≡ 6) × All IsGraphic (fill bytes)
unfolding fill
fill-IsGraphic bytes = omega (
  arith,
  bit_and-le bytes 31,
  bit_and-le (bytes / 2 ^ 5) 63,
  bit_and-le (bytes / 2 ^ 10) 95,
  bit_and-le (bytes / 2 ^ 15) 31,
  bit_and-le (bytes / 2 ^ 20) 63,
  bit_and-le (bytes / 2 ^ 25) 95,
)

buf_at-IsGraphic :
    (bs : List ℕ) (i : ℕ) → i < length bs → All IsGraphic bs → IsGraphic (buf_at bs i)
unfolding buf_at
buf_at-IsGraphic [] i h a = absurd (omega arith)
buf_at-IsGraphic (b ∷ bs) ℕ.zero h a = a.0
buf_at-IsGraphic (b ∷ bs) (ℕ.suc i) h a = buf_at-IsGraphic bs i (omega arith) a.1

refill-IsValid :
    (g : RandomByte) (bytes : ℕ)
    → IsValid g
    → ((refill g bytes).off < 6)
      × (length (refill g bytes).buf ≡ 6)
      × All IsGraphic (refill g bytes).buf
unfolding refill
refill-IsValid g bytes v = elim (Bool-cases (g.off == 6)) [
  | inl used ↦ rw used (omega arith, (fill-IsGraphic bytes).0, (fill-IsGraphic bytes).1)
  | inr left ↦ rw left (room left, (v.filled (room left)).0, (v.filled (room left)).1)
]
  where
    room : (g.off == 6) ≡ false → g.off < 6
    room left = ground (arith, v.within)

-- Every call of Next keeps the buffer valid, returns a byte from the space to 127, whatever the
-- random number, and Last returns that byte again.
pub next-IsGraphic :
    (g : RandomByte) (bytes : ℕ)
    → IsValid g
    → IsValid (next g bytes).1
      × IsGraphic (next g bytes).0
      × (last (next g bytes).1 ≡ (next g bytes).0)
unfolding next last
next-IsGraphic g bytes v =
    let (room, six, graphic) = refill-IsValid g bytes v in
    let off = (refill g bytes).off in
    let back : (off + 1 + 6 - 1) % 6 ≡ off = omega arith in
    (
      record { within = omega arith; filled = λ _. (six, graphic) },
      buf_at-IsGraphic (refill g bytes).buf off (omega arith) graphic,
      rw back refl,
    )
