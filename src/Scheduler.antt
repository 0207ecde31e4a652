-- ===== src/Scheduler.antt =====
-- scheduler/scheduler.c: the hooks that the scheduler calls when it creates, ends and switches
-- threads. The scheduler itself is not part of the repository's sources.
pub mod Count
pub mod Steps
pub mod Consistent
pub mod Create
pub mod Exit
pub mod Schedule
pub mod Flags
pub mod Frame
pub mod Trace
mod Defs
unfoldable pub use Defs.*
