-- ===== src/Heap/Bits.antt =====
-- The bits of a header's control word as arithmetic.
use armv7_os.Prelude.{
  ℕ, zero, suc, ◌+◌, ◌*◌, ◌/◌, ◌%◌, ◌^◌, ◌<◌, ◌≡◌, ◌↔◌, true, bit_or, refl, arith,
}
use armv7_os.Bits.{bit_and_mask, bit_and_mask_high, bit_or_split, bit_or-zero}
use armv7_os.Heap.Defs.{size_bits, free_bit, top_bit, set_top}

pub size_bits_lem : (c : ℕ) → c < 2 ^ 32 → size_bits c ≡ c / 4 * 4
unfolding size_bits
size_bits_lem c lt = omega (arith, bit_and_mask_high 2 30 c)

pub free_bit_iff : (c : ℕ) → (free_bit c ≡ true) ↔ (c / 2 % 2 ≡ 1)
unfolding free_bit
free_bit_iff c = ground (arith, bit_and_mask_high 1 1 c)

pub top_bit_iff : (c : ℕ) → (top_bit c ≡ true) ↔ (c % 2 ≡ 1)
unfolding top_bit
top_bit_iff c = ground (arith, bit_and_mask 1 c)

low_bit : (r : ℕ) → r < 2 → bit_or r 1 ≡ 1
low_bit zero lt = refl
low_bit (suc zero) lt = refl
low_bit (suc (suc r)) lt = omega arith

pub set_top_lem : (c : ℕ) → set_top c ≡ c / 2 * 2 + 1
unfolding set_top
set_top_lem c =
    ground (arith, bit_or_split 1 (c / 2) (c % 2) 0 1, bit_or-zero (c / 2), low_bit (c % 2))
