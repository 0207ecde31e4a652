-- ===== src/Tests/Memory.antt =====
-- The MMU.
use armv7_os.Prelude.{
  ℕ, ◌+◌, ◌*◌, ◌/◌, ◌%◌, ◌^◌, ◌≤◌, ◌<◌, bit_and, ◌≡◌, ◌≢◌, inl, some, arith, [], ◌∷◌,
}
use armv7_os.Mmu.{
  Mmu, Cp15, l1_table_init, translate_ap, physical_address_bits, map_userdata_to,
  return_heap_address, kmemcpy, copy_userdata_template, mmu_init, mb, user_data,
}
use armv7_os.Mmu.Init.{IsInitialised, attributes, l1_table_init-IsInitialised}
use armv7_os.Mmu.Access.{region_rights, translate_ap-region_rights}
use armv7_os.Mmu.Remap.{
  IsMappedTo, map_userdata_to-IsMappedTo, data_sections_apart, heap_section_among_stacks,
}
use armv7_os.Mmu.Copy.{
  copied, kmemcpy-copied, copy_userdata_template-copied, copy_source_follows_mapping,
}
use armv7_os.Mmu.Control.{mmu_init_lem}
use armv7_os.Mmu.Debug.{debug_l1_table, region_lines, debug_l1_table-region_lines}
use armv7_os.Mmu.Tlb.{
  Core, load, drop, remap, translated, IsCoherent, remap-IsCoherent, remap-stale,
}
use armv7_os.Tests.Samples.{
  blank_mmu, mapped_mmu, mapped_mmu-IsMappedTo, table_mmu, table_mmu-IsInitialised,
  table_mmu-IsKernelTable, section_walk, section_walk-IsSectionWalk, reset_cp15,
}

l1_table_init-IsInitialised_example :
    (m' : Mmu) × (l1_table_init blank_mmu ≡ some m')
    × IsInitialised m'
    × (m'.memory ≡ blank_mmu.memory)
l1_table_init-IsInitialised_example = l1_table_init-IsInitialised blank_mmu

translate_ap-region_rights_example :
    (translate_ap table_mmu 6 ≡ some (region_rights 6))
    × (bit_and (table_mmu.l1_table 6) physical_address_bits ≡ 6 * 2 ^ 20)
translate_ap-region_rights_example =
    translate_ap-region_rights table_mmu 6 table_mmu-IsInitialised (omega arith)

map_userdata_to-IsMappedTo_example :
    (m' : Mmu) × (map_userdata_to (8 + 3) table_mmu ≡ some m') × IsMappedTo 3 table_mmu m'
map_userdata_to-IsMappedTo_example =
    map_userdata_to-IsMappedTo 3 table_mmu (omega arith) table_mmu-IsKernelTable

data_sections_apart_example :
    (m' n' : Mmu) × (map_userdata_to (8 + 1) table_mmu ≡ some m')
    × (map_userdata_to (8 + 2) table_mmu ≡ some n')
    × (bit_and (m'.l1_table 6) physical_address_bits
        ≢ bit_and (n'.l1_table 6) physical_address_bits)
    × (bit_and (m'.l1_table 6) physical_address_bits ≢ 6 * 2 ^ 20)
    × (bit_and (n'.l1_table 6) physical_address_bits ≢ 6 * 2 ^ 20)
data_sections_apart_example =
    data_sections_apart 1 2 table_mmu table_mmu (omega arith) (omega arith) (omega arith)
      table_mmu-IsKernelTable table_mmu-IsKernelTable

heap_section_among_stacks_example :
    (m' : Mmu) × (entry : ℕ) × (map_userdata_to (8 + 3) table_mmu ≡ some m')
    × (return_heap_address m' ≡ some entry)
    × (16 * 2 ^ 20 ≤ bit_and entry physical_address_bits)
    × (bit_and entry physical_address_bits < 48 * 2 ^ 20)
heap_section_among_stacks_example =
    heap_section_among_stacks 3 table_mmu (omega arith) table_mmu-IsKernelTable

-- Two ranges of section 0 that overlap, the destination being the lower one.
kmemcpy-copied_example :
    kmemcpy section_walk 0x100 0x104 16 table_mmu
    ≡ some (record table_mmu { memory = copied 0x100 0x104 16 table_mmu.memory })
unfolding attributes
kmemcpy-copied_example =
    kmemcpy-copied section_walk section_walk-IsSectionWalk 0x100 0x104 16 table_mmu (omega arith)
      (omega arith) (omega arith) (omega arith) (inl (omega arith))

copy_userdata_template-copied_example :
    copy_userdata_template section_walk (8 + 2) table_mmu
    ≡ some (record table_mmu {
      memory =
          copied
            ((8 + 2) * 2 ^ 20)
            (bit_and (table_mmu.l1_table 6) physical_address_bits)
            mb
            table_mmu.memory;
    })
copy_userdata_template-copied_example =
    copy_userdata_template-copied section_walk section_walk-IsSectionWalk 2 table_mmu (omega arith)
      table_mmu-IsKernelTable

copy_source_follows_mapping_example :
    (n n' : Mmu) × (copy_userdata_template section_walk (8 + 2) table_mmu ≡ some n)
    × (copy_userdata_template section_walk (8 + 2) (mapped_mmu 1) ≡ some n')
    × ((k : ℕ)
        → k < mb
        → (n.memory ((8 + 2) * 2 ^ 20 + k) ≡ table_mmu.memory (6 * 2 ^ 20 + k))
          × (n'.memory ((8 + 2) * 2 ^ 20 + k) ≡ (mapped_mmu 1).memory ((8 + 1) * 2 ^ 20 + k)))
copy_source_follows_mapping_example =
    copy_source_follows_mapping section_walk section_walk-IsSectionWalk 2 1 (mapped_mmu 1)
      (omega arith) (omega arith) table_mmu-IsInitialised (mapped_mmu-IsMappedTo 1)

-- A core whose TLB holds an old entry of each section.
abbrev stale_core : Core
stale_core = record { mmu = table_mmu; tlb = λ s. some 7 }

remap-IsCoherent_example :
    (c' : Core) × (remap (load 3 ∷ []) (load 6 ∷ drop 3 ∷ []) 11 stale_core ≡ some c')
    × (map_userdata_to 11 table_mmu ≡ some c'.mmu)
    × IsCoherent c'
remap-IsCoherent_example =
    remap-IsCoherent (load 3 ∷ []) (load 6 ∷ drop 3 ∷ []) 11 stale_core (omega arith)
      (λ eq. omega arith, tt) (λ eq. omega arith, tt) (λ eq. omega arith, tt)

remap-stale_example :
    (c' : Core) × (remap (load user_data ∷ []) [] 11 stale_core ≡ some c')
    × (c'.mmu.l1_table user_data ≡ table_mmu.l1_table 11)
    × (translated user_data c' ≡ table_mmu.l1_table user_data)
remap-stale_example = remap-stale 11 stale_core (omega arith)

debug_l1_table-region_lines_example : debug_l1_table table_mmu ≡ some (region_lines 140 0)
debug_l1_table-region_lines_example = debug_l1_table-region_lines table_mmu table_mmu-IsInitialised

mmu_init_lem_example :
    (c' : Cp15) × (m' : Mmu) × (mmu_init 0x30_0000 reset_cp15 blank_mmu ≡ some (c', m'))
    × IsInitialised m'
    × (c'.ttbr0 ≡ 0x30_0000)
    × (c'.dacr ≡ 1)
    × (c'.ttbcr ≡ 0)
    × (c'.sctlr ≡ reset_cp15.sctlr / 2 ^ 13 * 2 ^ 13 + reset_cp15.sctlr % 2 ^ 12 / 8 * 8 + 3)
mmu_init_lem_example = mmu_init_lem 0x30_0000 reset_cp15 blank_mmu (omega arith)
