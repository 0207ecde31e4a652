-- ===== src/Mmu.antt =====
-- memory/mmu.c: the first-level translation table L1_TABLE, its initialisation, the remapping of
-- the user sections, the copy of the user data, and the coprocessor registers of
-- memory/mmu_assembly_funcs.S. A read or write of L1_TABLE out of its range is `none`.
pub mod Init
pub mod Access
pub mod Copy
pub mod Remap
pub mod Tlb
pub mod Debug
pub mod Control
mod Defs
unfoldable pub use Defs.*
