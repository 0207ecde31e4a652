-- ===== src/Mmu/Access.antt =====
-- The access rights that `translate_AP` reads off an initialised table.
use armv7_os.Prelude.{
  ℕ, ◌*◌, ◌^◌, ◌<◌, bit_and, ◌≡◌, refl, String, some, ◌==◌, if◌then◌else◌, within, arith, agree,
  eq_below,
}
use armv7_os.Mmu.Defs.{Mmu, l1_table_size, translate_ap, ap_name, ap_bits, physical_address_bits}
use armv7_os.Mmu.Init.{IsInitialised, attributes, section_entry}

-- The rights of each region, as the kernel's memory map states them: the kernel's own sections
-- are privileged, the user data template can only be read, and the sections between the heaps and
-- 128 MB are closed.
unfoldable pub region_rights : ℕ → String
region_rights j =
    if within 1 4 j
    then "AP_SYS_ACCESS"
    else if j == 6
    then "AP_BOTH_READ_ONLY"
    else if within 56 128 j
    then "AP_NO_ACCESS"
    else "AP_FULL_ACCESS"

region_bits : ℕ → ℕ
region_bits j =
    if within 1 4 j
    then 0b001
    else if j == 6
    then 0b111
    else if within 56 128 j
    then 0b000
    else 0b011

ap_bits-section_entry : (j : ℕ) → j < l1_table_size → ap_bits (section_entry j) ≡ region_bits j
unfolding attributes agree ap_bits region_bits
ap_bits-section_entry j below =
    eq_below (λ j. ap_bits (section_entry j)) region_bits l1_table_size j below refl

ap_name-region_bits : (j : ℕ) → ap_name (region_bits j) ≡ region_rights j
unfolding ap_name region_bits region_rights
ap_name-region_bits j = ground arith

-- The physical base of an entry is that of its section.
pub base-section_entry :
    (j : ℕ) → j < l1_table_size → bit_and (section_entry j) physical_address_bits ≡ j * 2 ^ 20
unfolding attributes agree
base-section_entry j below =
    eq_below (λ j. bit_and (section_entry j) physical_address_bits) (λ j. j * 2 ^ 20) l1_table_size
      j below refl

-- After the initialisation `translate_AP` names, for each of the 4096 sections, the rights of its
-- region, and the section's physical address is its virtual one.
pub translate_ap-region_rights :
    (m : Mmu) (j : ℕ)
    → IsInitialised m
    → j < l1_table_size
    → (translate_ap m j ≡ some (region_rights j))
      × (bit_and (m.l1_table j) physical_address_bits ≡ j * 2 ^ 20)
unfolding translate_ap
translate_ap-region_rights m j h lt =
    rw (h.entries j lt)
      (ground (arith, ap_bits-section_entry j, ap_name-region_bits j), base-section_entry j lt)
