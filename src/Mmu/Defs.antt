-- ===== src/Mmu/Defs.antt =====
-- The definitions of memory/mmu.c.
use armv7_os.Prelude.{
  ℕ, ◌+◌, ◌-◌, ◌*◌, ◌/◌, ◌%◌, ◌^◌, bit_and, bit_or, String, Option, some, ◌==◌, if◌then◌else◌,
  ◌>>=◌, for_loop, read, write, modify, update,
}

abbrev pub l1_table_size : ℕ
l1_table_size = 4096

abbrev pub max_processes : ℕ
max_processes = 8

abbrev pub max_threads : ℕ
max_threads = 32

abbrev pub base_address_section : ℕ
base_address_section = 0xFFF0_0000

abbrev pub physical_address_bits : ℕ
physical_address_bits = 0xFFF0_0000

abbrev pub ap_activate_full_access : ℕ
ap_activate_full_access = 0b0000_1100_0000_0000

abbrev pub ap_activate_sys_access : ℕ
ap_activate_sys_access = 0b0000_0100_0000_0000

abbrev pub ap_activate_both_read_only : ℕ
ap_activate_both_read_only = 0b1000_1100_0000_0000

abbrev pub l1_table_entry : ℕ
l1_table_entry = 2

-- The sections that the table names.
abbrev pub kernel_init : ℕ
kernel_init = 1

abbrev pub kernel_text : ℕ
kernel_text = 2

abbrev pub kernel_rodata : ℕ
kernel_rodata = 3

abbrev pub user_text : ℕ
user_text = 4

abbrev pub user_rodata : ℕ
user_rodata = 5

abbrev pub user_data : ℕ
user_data = 6

abbrev pub user_heap : ℕ
user_heap = 7

abbrev pub uart_timer : ℕ
uart_timer = 0x3F0

abbrev pub uart_led : ℕ
uart_led = 0x3F2

abbrev pub uart_peri : ℕ
uart_peri = 0x400

-- The number of bytes that `copy_userdata_template` copies: the macro MB of mmu.c.
abbrev pub mb : ℕ
mb = 10000

-- L1_TABLE, the global `template`, and the physical memory, byte by byte.
pub record Mmu : Type 0 where
  pub l1_table : ℕ → ℕ
  pub template : ℕ
  pub memory : ℕ → ℕ

-- `x << k` in 32 bits.
abbrev pub shl32 : ℕ → ℕ → ℕ
shl32 x k = x * 2 ^ k % 2 ^ 32

-- L1_TABLE[i] = v.
abbrev pub set_entry : ℕ → ℕ → (ℕ → ℕ) → Option (ℕ → ℕ)
set_entry i v t = write l1_table_size t i v

-- L1_TABLE[i] |= bits.
abbrev pub or_entry : ℕ → ℕ → (ℕ → ℕ) → Option (ℕ → ℕ)
or_entry bits = modify l1_table_size (λ i e. bit_or e bits)

unfoldable pub map_userdata_to : ℕ → Mmu → Option Mmu
map_userdata_to new m = do
  data_entry ← read l1_table_size m.l1_table new
  t ← write l1_table_size m.l1_table user_data data_entry
  heap_entry ← read l1_table_size t (new + 16)
  t' ← write l1_table_size t user_heap heap_entry
  some (record m { l1_table = t' })

unfoldable pub return_heap_address : Mmu → Option ℕ
return_heap_address m = read l1_table_size m.l1_table user_heap

-- The hardware's translation of a virtual address by the table.
module _ (walk : (ℕ → ℕ) → ℕ → ℕ) where
  -- The loop of `kmemcpy`: both pointers are virtual addresses.
  unfoldable pub copy_bytes : (ℕ → ℕ) → ℕ → ℕ → ℕ → (ℕ → ℕ) → Option (ℕ → ℕ)
  copy_bytes t dest src n =
      for_loop n 0
        (λ i memory. some (update memory (walk t (dest + i)) (memory (walk t (src + i)))))

  unfoldable pub kmemcpy : ℕ → ℕ → ℕ → Mmu → Option Mmu
  unfolding copy_bytes
  kmemcpy dest src n m = do
    memory ← copy_bytes m.l1_table dest src n m.memory
    some (record m { memory = memory })

  unfoldable pub copy_userdata_template : ℕ → Mmu → Option Mmu
  copy_userdata_template new_address m = do
    entry ← read l1_table_size m.l1_table new_address
    kmemcpy (bit_and entry physical_address_bits) (bit_and m.template physical_address_bits) mb m

-- The `switch` of `translate_AP`, on bit 15 beside the bits 11 and 10.
unfoldable pub ap_bits : ℕ → ℕ
ap_bits entry = bit_or (bit_and (entry / 2 ^ 15) 1 * 2 ^ 2) (bit_and (entry / 2 ^ 10) 3)

unfoldable pub ap_name : ℕ → String
ap_name ap =
    if ap == 0b000
    then "AP_NO_ACCESS"
    else if ap == 0b001
    then "AP_SYS_ACCESS"
    else if ap == 0b101
    then "AP_SYS_READ_ONLY"
    else if ap == 0b111
    then "AP_BOTH_READ_ONLY"
    else if ap == 0b010
    then "AP_READ_ONLY"
    else if ap == 0b011
    then "AP_FULL_ACCESS"
    else "UNKNOWN"

unfoldable pub translate_ap : Mmu → ℕ → Option String
translate_ap m id = do entry ← read l1_table_size m.l1_table id; some (ap_name (ap_bits entry))

unfoldable pub init_process_sections : (ℕ → ℕ) → Option (ℕ → ℕ)
init_process_sections t = do
  t ← for_loop max_processes 8 (or_entry ap_activate_full_access) t
  for_loop max_threads 16 (or_entry ap_activate_full_access) t

unfoldable pub init_heap_sections : (ℕ → ℕ) → Option (ℕ → ℕ)
init_heap_sections = for_loop 8 (16 + max_threads) (or_entry ap_activate_full_access)

unfoldable pub l1_table_init : Mmu → Option Mmu
unfolding init_process_sections init_heap_sections
l1_table_init m = do
  t ←
      for_loop l1_table_size 0
        (modify l1_table_size
          (λ i _. bit_or (bit_and (shl32 i 20) base_address_section) l1_table_entry))
        m.l1_table
  t ← or_entry ap_activate_full_access 0 t
  t ← or_entry ap_activate_sys_access kernel_init t
  t ← or_entry ap_activate_sys_access kernel_text t
  t ← or_entry ap_activate_sys_access kernel_rodata t
  t ← set_entry uart_timer (bit_or (bit_or 0x3F00_0000 ap_activate_full_access) l1_table_entry) t
  t ← set_entry uart_led (bit_or (bit_or 0x3F20_0000 ap_activate_full_access) l1_table_entry) t
  t ← set_entry uart_peri (bit_or (bit_or 0x4000_0000 ap_activate_full_access) l1_table_entry) t
  t ← or_entry ap_activate_full_access user_text t
  t ← or_entry ap_activate_full_access user_rodata t
  t ← or_entry ap_activate_both_read_only user_data t
  t ← or_entry ap_activate_full_access user_heap t
  template ← read l1_table_size t user_data
  t ← for_loop 3968 128 (or_entry ap_activate_full_access) t
  t ← init_process_sections t
  t ← init_heap_sections t
  some (record m { l1_table = t; template = template })

-- The coprocessor registers that the kernel writes.
pub record Cp15 : Type 0 where
  pub sctlr : ℕ
  pub ttbr0 : ℕ
  pub ttbcr : ℕ
  pub dacr : ℕ

-- `~x` in 32 bits.
abbrev pub complement32 : ℕ → ℕ
complement32 x = 2 ^ 32 - 1 - x

unfoldable pub set_sctlr : Cp15 → Cp15
set_sctlr c =
    let current = c.sctlr in
    let current = bit_and current (complement32 (2 ^ 2)) in
    let current = bit_and current (complement32 (2 ^ 12)) in
    let current = bit_or current 3 in record c { sctlr = current }

-- `table` is the address of L1_TABLE.
unfoldable pub mmu_init : ℕ → Cp15 → Mmu → Option (Cp15 × Mmu)
mmu_init table c m = do
  m ← l1_table_init m
  some (set_sctlr (record c { ttbr0 = table; dacr = 1; ttbcr = 0 }), m)
