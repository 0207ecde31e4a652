-- ===== src/Mmu/Init.antt =====
-- What `L1_TABLE_init` leaves in the table: every section is mapped to itself, with the access
-- rights of its region.
use armv7_os.Prelude.{
  ℕ, ◌+◌, ◌*◌, ◌^◌, ◌≤◌, ◌<◌, bit_and, bit_or, ◌≡◌, ◌≢◌, refl, some, ◌==◌, if◌then◌else◌, within,
  for_loop, for_loop-modify, modify, update, arith, agree, eq_below,
}
use armv7_os.Mmu.Defs.{
  Mmu, l1_table_init, l1_table_size, shl32, base_address_section, l1_table_entry,
  ap_activate_full_access, ap_activate_sys_access, ap_activate_both_read_only, uart_timer, uart_led,
  uart_peri, or_entry,
}

-- The attribute bits of a section after the initialisation, by region.
unfoldable pub attributes : ℕ → ℕ
attributes j =
    if within 1 4 j
    then 0x402
    else if j == 6
    then 0x8C02
    else if within 56 128 j
    then 0x2
    else 0xC02

-- A section mapped to itself.
abbrev pub section_entry : ℕ → ℕ
section_entry j = j * 2 ^ 20 + attributes j

pub record IsInitialised (m : Mmu) : Type 0 where
  pub entries : (j : ℕ) → j < l1_table_size → m.l1_table j ≡ section_entry j
  pub template_entry : m.template ≡ section_entry 6

-- What stays of it when the user sections 6 and 7 are remapped.
pub record IsKernelTable (m : Mmu) : Type 0 where
  pub fixed : (j : ℕ) → j < l1_table_size → j ≢ 6 → j ≢ 7 → m.l1_table j ≡ section_entry j
  pub template_entry : m.template ≡ section_entry 6

-- The assignments of the initialisation as functions on the table.
abbrev or_at : ℕ → ℕ → (ℕ → ℕ) → ℕ → ℕ
or_at bits i t = update t i (bit_or (t i) bits)

abbrev or_range : ℕ → ℕ → ℕ → (ℕ → ℕ) → ℕ → ℕ
or_range bits lo n t j = if within lo (lo + n) j then bit_or (t j) bits else t j

abbrev fresh_table : (ℕ → ℕ) → ℕ → ℕ
fresh_table t j =
    if within 0 l1_table_size j
    then bit_or (bit_and (shl32 j 20) base_address_section) l1_table_entry
    else t j

abbrev named_sections : (ℕ → ℕ) → ℕ → ℕ
named_sections t =
    let full = ap_activate_full_access in
    let sys = ap_activate_sys_access in
    let t = or_at sys 3 (or_at sys 2 (or_at sys 1 (or_at full 0 (fresh_table t)))) in
    let t = update t uart_timer 0x3F00_0C02 in
    let t = update t uart_led 0x3F20_0C02 in
    let t = update t uart_peri 0x4000_0C02 in
    or_at full 7 (or_at ap_activate_both_read_only 6 (or_at full 5 (or_at full 4 t)))

abbrev final_table : (ℕ → ℕ) → ℕ → ℕ
final_table t =
    let full = ap_activate_full_access in
    or_range full 48 8
      (or_range full 16 32 (or_range full 8 8 (or_range full 128 3968 (named_sections t))))

or_loop :
    (n lo bits : ℕ) (t : ℕ → ℕ)
    → lo + n ≤ l1_table_size
    → for_loop n lo (or_entry bits) t ≡ some (or_range bits lo n t)
or_loop n lo bits t h = for_loop-modify l1_table_size (λ i e. bit_or e bits) n lo t h

init_loop :
    (t : ℕ → ℕ)
    → for_loop l1_table_size 0
        (modify l1_table_size
          (λ i _. bit_or (bit_and (shl32 i 20) base_address_section) l1_table_entry))
        t
      ≡ some (fresh_table t)
init_loop t = for_loop-modify l1_table_size _ 4096 0 t (omega arith)

-- The initialisation runs to its end, with no access out of the table.
l1_table_init_runs :
    (m : Mmu)
    → l1_table_init m
      ≡ some
          (record m { l1_table = final_table m.l1_table; template = named_sections m.l1_table 6 })
unfolding l1_table_init
l1_table_init_runs m =
    rw
      (
        init_loop m.l1_table,
        or_loop 3968 128 ap_activate_full_access _ (omega arith),
        or_loop 8 8 ap_activate_full_access _ (omega arith),
        or_loop 32 16 ap_activate_full_access _ (omega arith),
        or_loop 8 48 ap_activate_full_access _ (omega arith),
      )
      refl

final_table-section_entry :
    (t : ℕ → ℕ) (j : ℕ) → j < l1_table_size → final_table t j ≡ section_entry j
unfolding attributes agree
final_table-section_entry t j below =
    eq_below (final_table t) section_entry l1_table_size j below refl

-- From any state of the table the initialisation runs to its end, with no access out of range. It
-- maps every one of the 4096 sections to itself with the rights of its region, keeps the entry of
-- the user data as the template, and leaves the memory alone.
pub l1_table_init-IsInitialised :
    (m : Mmu) → (m' : Mmu) × (l1_table_init m ≡ some m') × IsInitialised m' × (m'.memory ≡ m.memory)
l1_table_init-IsInitialised m = (
  record m { l1_table = final_table m.l1_table; template = named_sections m.l1_table 6 },
  l1_table_init_runs m,
  record {
    entries = final_table-section_entry m.l1_table;
    template_entry = unfold attributes in refl;
  },
  refl,
)

pub IsInitialised-IsKernelTable : {m : Mmu} → IsInitialised m → IsKernelTable m
IsInitialised-IsKernelTable h = record {
  fixed = λ j lt _ _. h.entries j lt;
  template_entry = h.template_entry;
}
