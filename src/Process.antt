-- ===== src/Process.antt =====
-- system/process.c and include/process.h: the table of the processes and the table that says which
-- thread belongs to which process.
pub mod Init
pub mod Free
mod Defs
unfoldable pub use Defs.*
