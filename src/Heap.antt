-- ===== src/Heap.antt =====
-- user/heap.c: `malloc` and `free` on the blocks of the user heap.
pub mod Bits
pub mod Below
pub mod Stack
pub mod Split
pub mod Reserve
pub mod Merge
pub mod Release
pub mod Malloc
pub mod Sequence
pub mod Refine
pub mod Twice
pub mod FreeList
pub mod Full
pub mod Draw
pub mod Tiles
mod Defs
mod Free
unfoldable pub use Defs.*
unfoldable pub use Free.*
