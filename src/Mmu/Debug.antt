-- ===== src/Mmu/Debug.antt =====
-- The print of the table, `debug_L1_Table` of memory/mmu.c, as the list of its calls of `kprintf`.
use armv7_os.Prelude.{
  ℕ, zero, suc, ◌+◌, ◌*◌, ◌^◌, ◌≤◌, ◌<◌, bit_and, ◌≡◌, refl, String, Option, some, List, [], ◌∷◌,
  ◌>>=◌, read, ltb, lt→ltb, true, arith,
}
use armv7_os.Mmu.Defs.{Mmu, l1_table_size, translate_ap, physical_address_bits}
use armv7_os.Mmu.Init.{IsInitialised}
use armv7_os.Mmu.Access.{region_rights, translate_ap-region_rights}

-- The arguments of a line: the index, the physical address and the access rights.
abbrev pub Line : Type 0
Line = ℕ × ℕ × String

unfoldable pub debug_line : Mmu → ℕ → Option Line
debug_line m i = do
  entry ← read l1_table_size m.l1_table i
  rights ← translate_ap m i
  some (i, bit_and entry physical_address_bits, rights)

-- The loop, with `n` rounds left.
unfoldable pub debug_lines : ℕ → ℕ → Mmu → Option (List Line)
debug_lines zero i m = some []
debug_lines (suc n) i m = do
  line ← debug_line m i
  lines ← debug_lines n (suc i) m
  some (line ∷ lines)

unfoldable pub debug_l1_table : Mmu → Option (List Line)
debug_l1_table = debug_lines 140 0

-- The lines of `n` sections from `i` on, by the memory map.
abbrev pub region_lines : ℕ → ℕ → List Line
region_lines zero i = []
region_lines (suc n) i = (i, i * 2 ^ 20, region_rights i) ∷ region_lines n (suc i)

debug_line-region_rights :
    (m : Mmu) (i : ℕ)
    → IsInitialised m
    → i < l1_table_size
    → debug_line m i ≡ some (i, i * 2 ^ 20, region_rights i)
unfolding debug_line
debug_line-region_rights m i h lt =
    let rights = translate_ap-region_rights m i h lt in
    let in_range : ltb i l1_table_size ≡ true = lt→ltb i l1_table_size lt in
    rw (in_range, rights.0, rights.1) refl

debug_lines-region_lines :
    (n i : ℕ) (m : Mmu)
    → IsInitialised m
    → i + n ≤ l1_table_size
    → debug_lines n i m ≡ some (region_lines n i)
unfolding debug_lines
debug_lines-region_lines zero i m h le = refl
debug_lines-region_lines (suc n) i m h le =
    rw
      (
        debug_line-region_rights m i h (omega arith),
        debug_lines-region_lines n (suc i) m h (omega arith),
      )
      refl

-- On an initialised table `debug_L1_Table` prints, for each of the first 140 sections in their order,
-- its address and the rights of its region.
pub debug_l1_table-region_lines :
    (m : Mmu) → IsInitialised m → debug_l1_table m ≡ some (region_lines 140 0)
unfolding debug_l1_table
debug_l1_table-region_lines m h = debug_lines-region_lines 140 0 m h (omega arith)
