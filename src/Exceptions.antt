-- ===== src/Exceptions.antt =====
-- system/exceptions.c: the dispatch of exceptions and system calls. What it calls outside the
-- repository's sources (the scheduler, the UART, the timer, the prints) is a parameter.
pub mod Dispatch
mod Defs
unfoldable pub use Defs.*
