-- ===== src/Mmu/Remap.antt =====
-- `map_userdata_to`: the sections of the user data and of the user heap follow the process.
use armv7_os.Prelude.{ℕ, ◌+◌, ◌*◌, ◌^◌, ◌≤◌, ◌<◌, bit_and, ◌≡◌, ◌≢◌, ◌∙◌, refl, some, update, arith}
use armv7_os.Mmu.Defs.{
  Mmu, map_userdata_to, return_heap_address, physical_address_bits, max_processes,
}
use armv7_os.Mmu.Init.{IsKernelTable, section_entry}
use armv7_os.Mmu.Access.{base-section_entry}

-- `m'` is `m` with sections 6 and 7 remapped for the process whose data lies in section `8 + pid`.
pub record IsMappedTo (pid : ℕ) (m m' : Mmu) : Type 0 where
  pub data_entry : m'.l1_table 6 ≡ section_entry (8 + pid)
  pub heap_entry : m'.l1_table 7 ≡ section_entry (24 + pid)
  pub others : (j : ℕ) → j ≢ 6 → j ≢ 7 → m'.l1_table j ≡ m.l1_table j
  pub same_template : m'.template ≡ m.template
  pub same_memory : m'.memory ≡ m.memory

remapped : ℕ → Mmu → Mmu
remapped pid m = record m {
  l1_table = update (update m.l1_table 6 (m.l1_table (8 + pid))) 7 (m.l1_table (24 + pid));
}

-- For a process id below 8 the remapping succeeds: the user data is then the process's own data
-- section `8 + pid`, the user heap is section `24 + pid`, and nothing else changes.
pub map_userdata_to-IsMappedTo :
    (pid : ℕ) (m : Mmu)
    → pid < max_processes
    → IsKernelTable m
    → (m' : Mmu) × (map_userdata_to (8 + pid) m ≡ some m') × IsMappedTo pid m m'
unfolding map_userdata_to remapped
map_userdata_to-IsMappedTo pid m lt h = (
  remapped pid m,
  ground arith,
  record {
    data_entry = h.fixed (8 + pid) (omega arith) (omega arith) (omega arith);
    heap_entry = h.fixed (24 + pid) (omega arith) (omega arith) (omega arith);
    others = λ j a b. ground arith;
    same_template = refl;
    same_memory = refl;
  },
)

pub IsMappedTo-IsKernelTable :
    {pid : ℕ} {m m' : Mmu} → IsMappedTo pid m m' → IsKernelTable m → IsKernelTable m'
IsMappedTo-IsKernelTable mapped h = record {
  fixed = λ j lt a b. mapped.others j a b ∙ h.fixed j lt a b;
  template_entry = mapped.same_template ∙ h.template_entry;
}

-- Where the kernel's tables are as the initialisation leaves them, `map_userdata_to` for two processes
-- with different ids below 8 succeeds for both, from any mappings before, and maps the user data to
-- different physical addresses, of which neither is the template's section.
pub data_sections_apart :
    (p q : ℕ) (m n : Mmu)
    → p < max_processes
    → q < max_processes
    → p ≢ q
    → IsKernelTable m
    → IsKernelTable n
    → (m' n' : Mmu) × (map_userdata_to (8 + p) m ≡ some m')
      × (map_userdata_to (8 + q) n ≡ some n')
      × (bit_and (m'.l1_table 6) physical_address_bits
          ≢ bit_and (n'.l1_table 6) physical_address_bits)
      × (bit_and (m'.l1_table 6) physical_address_bits ≢ 6 * 2 ^ 20)
      × (bit_and (n'.l1_table 6) physical_address_bits ≢ 6 * 2 ^ 20)
data_sections_apart p q m n lt lt' ne hm hn =
    let (m', run, mp) = map_userdata_to-IsMappedTo p m lt hm in
    let (n', run', mq) = map_userdata_to-IsMappedTo q n lt' hn in
    let base = base-section_entry (8 + p) (omega arith) in
    let base' = base-section_entry (8 + q) (omega arith) in
    (
      m',
      n',
      run,
      run',
      rw (mp.data_entry, mq.data_entry, base, base') (omega arith),
      rw (mp.data_entry, base) (omega arith),
      rw (mq.data_entry, base') (omega arith),
    )

-- The heap that a process sees after the remapping is one of the sections 16 to 47 of the thread
-- stacks, and never one of the sections 48 to 55 that `init_heap_sections` sets up for heaps.
pub heap_section_among_stacks :
    (pid : ℕ) (m : Mmu)
    → pid < max_processes
    → IsKernelTable m
    → (m' : Mmu) × (entry : ℕ) × (map_userdata_to (8 + pid) m ≡ some m')
      × (return_heap_address m' ≡ some entry)
      × (16 * 2 ^ 20 ≤ bit_and entry physical_address_bits)
      × (bit_and entry physical_address_bits < 48 * 2 ^ 20)
unfolding return_heap_address
heap_section_among_stacks pid m lt h =
    let (m', runs, mapped) = map_userdata_to-IsMappedTo pid m lt h in
    let base = base-section_entry (24 + pid) (omega arith) in
    (
      m',
      section_entry (24 + pid),
      runs,
      ground (arith, mapped.heap_entry),
      rw base (omega arith),
      rw base (omega arith),
    )
