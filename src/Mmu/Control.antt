-- ===== src/Mmu/Control.antt =====
-- The coprocessor registers after `mmu_init`.
use armv7_os.Prelude.{
  ℕ, ◌+◌, ◌-◌, ◌*◌, ◌/◌, ◌%◌, ◌^◌, ◌<◌, bit_and, bit_or, ◌≡◌, refl, some, zero, suc, arith,
}
use armv7_os.Bits.{bit_and_split, bit_and_mask, bit_or_split, bit_or-zero}
use armv7_os.Mmu.Defs.{Mmu, Cp15, set_sctlr, mmu_init, complement32}
use armv7_os.Mmu.Init.{IsInitialised, l1_table_init-IsInitialised}

-- Clearing bit 2 and bit 12 of a word.
clear_two : (x : ℕ) → x < 2 ^ 32 → bit_and x (complement32 (2 ^ 2)) ≡ x / 8 * 8 + x % 4
clear_two x h = ground (
  arith,
  bit_and_split 3 (x / 8) (x % 8) (2 ^ 29 - 1) 3,
  bit_and_mask 29 (x / 8),
  bit_and_mask 2 (x % 8),
)

clear_twelve :
    (x : ℕ) → x < 2 ^ 32 → bit_and x (complement32 (2 ^ 12)) ≡ x / 2 ^ 13 * 2 ^ 13 + x % 2 ^ 12
clear_twelve x h = ground (
  arith,
  bit_and_split 13 (x / 2 ^ 13) (x % 2 ^ 13) (2 ^ 19 - 1) (2 ^ 12 - 1),
  bit_and_mask 19 (x / 2 ^ 13),
  bit_and_mask 12 (x % 2 ^ 13),
)

low_three : (r : ℕ) → r < 4 → bit_or r 3 ≡ 3
low_three zero h = refl
low_three (suc zero) h = refl
low_three (suc (suc zero)) h = refl
low_three (suc (suc (suc zero))) h = refl
low_three (suc (suc (suc (suc r)))) h = omega arith

set_low_two : (x : ℕ) → bit_or x 3 ≡ x / 4 * 4 + 3
set_low_two x =
    ground (arith, bit_or_split 2 (x / 4) (x % 4) 0 3, bit_or-zero (x / 4), low_three (x % 4))

-- From any word in the control register `set_SCTLR` clears bit 12 and bit 2 (the caches), sets
-- bit 0 (the MMU) and bit 1 (the alignment check), and keeps all other bits.
pub set_sctlr_lem :
    (c : Cp15)
    → c.sctlr < 2 ^ 32
    → (set_sctlr c).sctlr ≡ c.sctlr / 2 ^ 13 * 2 ^ 13 + c.sctlr % 2 ^ 12 / 8 * 8 + 3
unfolding set_sctlr
set_sctlr_lem c h =
    let x = c.sctlr in
    let y = bit_and x (complement32 (2 ^ 2)) in
    let z = bit_and y (complement32 (2 ^ 12)) in
    omega (arith, clear_two x h, clear_twelve y (omega (arith, clear_two x h)), set_low_two z)

-- `mmu_init` succeeds from any state: the table is initialised, the table base register holds its
-- address, domain 0 is a client, and in the control register the MMU and the alignment check are on,
-- both caches are off, and all other bits are as they were.
pub mmu_init_lem :
    (table : ℕ) (c : Cp15) (m : Mmu)
    → c.sctlr < 2 ^ 32
    → (c' : Cp15) × (m' : Mmu) × (mmu_init table c m ≡ some (c', m'))
      × IsInitialised m'
      × (c'.ttbr0 ≡ table)
      × (c'.dacr ≡ 1)
      × (c'.ttbcr ≡ 0)
      × (c'.sctlr ≡ c.sctlr / 2 ^ 13 * 2 ^ 13 + c.sctlr % 2 ^ 12 / 8 * 8 + 3)
unfolding mmu_init
mmu_init_lem table c m h =
    let (m', runs, done, _) = l1_table_init-IsInitialised m in
    let c' = record c { ttbr0 = table; dacr = 1; ttbcr = 0 } in
    (
      set_sctlr c',
      m',
      rw runs,
      done,
      (unfold set_sctlr in refl),
      (unfold set_sctlr in refl),
      (unfold set_sctlr in refl),
      set_sctlr_lem c' h,
    )
