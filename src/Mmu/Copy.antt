-- ===== src/Mmu/Copy.antt =====
-- `kmemcpy` and `copy_userdata_template`, through the hardware's address translation.
use armv7_os.Prelude.{
  ℕ, zero, suc, ◌+◌, ◌-◌, ◌*◌, ◌/◌, ◌%◌, ◌^◌, ◌≤◌, ◌<◌, bit_and, ◌≡◌, ◌⊎◌, ◌∙◌, some, Option,
  update, within, if◌then◌else◌, for_loop, ap, fun_ext, arith,
}
use armv7_os.Mmu.Defs.{
  Mmu, kmemcpy, copy_userdata_template, physical_address_bits, max_processes, mb,
}
use armv7_os.Bits.{bit_and_mask_high}
use armv7_os.Mmu.Init.{IsKernelTable, IsInitialised, IsInitialised-IsKernelTable, section_entry}
use armv7_os.Mmu.Remap.{IsMappedTo, IsMappedTo-IsKernelTable}
use armv7_os.Mmu.Access.{base-section_entry}

-- What the ARMv7 architecture says of a table of sections: the upper 12 bits of a virtual address
-- select the entry, whose upper 12 bits replace them.
abbrev pub IsSectionWalk : ((ℕ → ℕ) → ℕ → ℕ) → Type 0
IsSectionWalk walk =
    (t : ℕ → ℕ) (a : ℕ)
    → a < 2 ^ 32
    → walk t a ≡ bit_and (t (a / 2 ^ 20)) physical_address_bits + a % 2 ^ 20

-- `memory` with the `n` bytes at `src` copied to `dest`.
abbrev pub copied : ℕ → ℕ → ℕ → (ℕ → ℕ) → ℕ → ℕ
copied dest src n memory a =
    if within dest (dest + n) a then memory (src + (a - dest)) else memory a

-- One round of the loop, on physical addresses.
abbrev copy_byte : (ℕ → ℕ) → (ℕ → ℕ) → ℕ → (ℕ → ℕ) → Option (ℕ → ℕ)
copy_byte to from i memory = some (update memory (to i) (memory (from i)))

-- The loop copies forwards, so the ranges may overlap if the destination is the lower one.
copy_loop :
    (d s : ℕ) (to from : ℕ → ℕ) (rounds i : ℕ) (memory : ℕ → ℕ)
    → ((k : ℕ) → k < i + rounds → (to k ≡ d + k) × (from k ≡ s + k))
    → (d ≤ s) ⊎ (s + (i + rounds) ≤ d)
    → for_loop rounds i (copy_byte to from) memory ≡ some (copied (d + i) (s + i) rounds memory)
unfolding for_loop
copy_loop d s to from zero i memory addresses order = ap some (fun_ext λ a. ground arith)
copy_loop d s to from (suc rounds) i memory addresses order =
    copy_loop d s to from rounds (i + 1) (update memory (to i) (memory (from i)))
      (λ k lt. addresses k (omega arith)) (omega arith)
    ∙ ap some (fun_ext λ a. ground (arith, addresses i))

module _ (walk : (ℕ → ℕ) → ℕ → ℕ) (walks : IsSectionWalk walk) where
  walk_offset :
      (t : ℕ → ℕ) (a k : ℕ) → a < 2 ^ 32 → a % 2 ^ 20 + k < 2 ^ 20 → walk t (a + k) ≡ walk t a + k
  walk_offset t a k lt inside =
      rw (walks t (a + k) (omega arith), walks t a lt) (ground (arith, same_section))
    where
      same_section : (a + k) / 2 ^ 20 ≡ a / 2 ^ 20
      same_section = omega arith

  -- `kmemcpy` between two ranges that lie each in one section copies the bytes of the physical
  -- source range, as they were before, to the physical destination range and changes no other
  -- byte, where the ranges do not overlap or the destination is the lower one.
  pub kmemcpy-copied :
      (dest src n : ℕ) (m : Mmu)
      → dest < 2 ^ 32
      → src < 2 ^ 32
      → dest % 2 ^ 20 + n ≤ 2 ^ 20
      → src % 2 ^ 20 + n ≤ 2 ^ 20
      → (walk m.l1_table dest ≤ walk m.l1_table src)
        ⊎ (walk m.l1_table src + n ≤ walk m.l1_table dest)
      → kmemcpy walk dest src n m
        ≡ some
            (record m { memory = copied (walk m.l1_table dest) (walk m.l1_table src) n m.memory })
  unfolding kmemcpy
  kmemcpy-copied dest src n m dest_lt src_lt dest_fits src_fits order =
      rw (copy_loop (walk t dest) (walk t src) _ _ n 0 m.memory addresses (omega arith))
        (ap some (λ i. record m { memory = zero_offset i }))
    where
      open m use {l1_table as t}

      addresses :
          (k : ℕ)
          → k < 0 + n
          → (walk t (dest + k) ≡ walk t dest + k) × (walk t (src + k) ≡ walk t src + k)
      addresses k lt =
          (walk_offset t dest k dest_lt (omega arith), walk_offset t src k src_lt (omega arith))

      zero_offset :
          copied (walk t dest + 0) (walk t src + 0) n m.memory
          ≡ copied (walk t dest) (walk t src) n m.memory
      zero_offset = fun_ext λ a. ground arith

  -- The bytes that a new process is given come from the section that is mapped as user data at the
  -- time of the copy; they go to the new process's own data section, and nothing else changes.
  pub copy_userdata_template-copied :
      (pid : ℕ) (m : Mmu)
      → pid < max_processes
      → IsKernelTable m
      → copy_userdata_template walk (8 + pid) m
        ≡ some (record m {
          memory =
              copied
                ((8 + pid) * 2 ^ 20)
                (bit_and (m.l1_table 6) physical_address_bits)
                mb
                m.memory;
        })
  unfolding copy_userdata_template
  copy_userdata_template-copied pid m lt h =
      copies
      ∙ kmemcpy-copied ((8 + pid) * 2 ^ 20) (6 * 2 ^ 20) mb m (omega arith) (omega arith)
          (omega arith) (omega arith) (omega (arith, to_section, from_section, aligned))
      ∙ ap some (λ i. record m { memory = copied (to_section i) (from_section i) mb m.memory })
    where
      own_base : bit_and (m.l1_table (8 + pid)) physical_address_bits ≡ (8 + pid) * 2 ^ 20
      own_base =
          rw (h.fixed (8 + pid) (omega arith) (omega arith) (omega arith))
            (base-section_entry (8 + pid) (omega arith))

      template_base : bit_and m.template physical_address_bits ≡ 6 * 2 ^ 20
      template_base = rw h.template_entry (base-section_entry 6 (omega arith))

      copies :
          copy_userdata_template walk (8 + pid) m
          ≡ kmemcpy walk ((8 + pid) * 2 ^ 20) (6 * 2 ^ 20) mb m
      copies = ground (arith, own_base, template_base)

      to_section : walk m.l1_table ((8 + pid) * 2 ^ 20) ≡ (8 + pid) * 2 ^ 20
      to_section =
          rw (walks m.l1_table ((8 + pid) * 2 ^ 20) (omega arith))
            (ground (arith, own_base, entry_index))
        where
          entry_index : (8 + pid) * 2 ^ 20 / 2 ^ 20 ≡ 8 + pid
          entry_index = omega arith

      from_section : walk m.l1_table (6 * 2 ^ 20) ≡ bit_and (m.l1_table 6) physical_address_bits
      from_section = rw (walks m.l1_table (6 * 2 ^ 20) (omega arith)) (omega arith)

      aligned :
          bit_and (m.l1_table 6) physical_address_bits ≡ m.l1_table 6 / 2 ^ 20 % 2 ^ 12 * 2 ^ 20
      aligned = bit_and_mask_high 20 12 (m.l1_table 6)

  -- Once a process `q` is mapped, a new process is given the bytes of the data section of `q`, and
  -- not those of the template's section 6. Before any remapping it is given the template's.
  pub copy_source_follows_mapping :
      (pid q : ℕ) {m : Mmu} (m' : Mmu)
      → pid < max_processes
      → q < max_processes
      → IsInitialised m
      → IsMappedTo q m m'
      → (n n' : Mmu) × (copy_userdata_template walk (8 + pid) m ≡ some n)
        × (copy_userdata_template walk (8 + pid) m' ≡ some n')
        × ((k : ℕ)
            → k < mb
            → (n.memory ((8 + pid) * 2 ^ 20 + k) ≡ m.memory (6 * 2 ^ 20 + k))
              × (n'.memory ((8 + pid) * 2 ^ 20 + k) ≡ m'.memory ((8 + q) * 2 ^ 20 + k)))
  copy_source_follows_mapping pid q {m} m' lt lt' h mapped = (
    filled m 6,
    filled m' (8 + q),
    runs m 6 (h.entries 6 (omega arith)) (omega arith) before,
    runs m' (8 + q) mapped.data_entry (omega arith) (IsMappedTo-IsKernelTable mapped before),
    λ k below. (at m 6 k below, at m' (8 + q) k below),
  )
    where
      before : IsKernelTable m
      before = IsInitialised-IsKernelTable h

      filled : Mmu → ℕ → Mmu
      filled x from = record x { memory = copied ((8 + pid) * 2 ^ 20) (from * 2 ^ 20) mb x.memory }

      runs :
          (x : Mmu) (from : ℕ)
          → x.l1_table 6 ≡ section_entry from
          → from < 4096
          → IsKernelTable x
          → copy_userdata_template walk (8 + pid) x ≡ some (filled x from)
      runs x from e below table =
          copy_userdata_template-copied pid x lt table
          ∙ ap (λ s. some (record x { memory = copied ((8 + pid) * 2 ^ 20) s mb x.memory }))
              (rw e (base-section_entry from below))

      at :
          (x : Mmu) (from k : ℕ)
          → k < mb
          → (filled x from).memory ((8 + pid) * 2 ^ 20 + k) ≡ x.memory (from * 2 ^ 20 + k)
      at x from k below = ground arith
