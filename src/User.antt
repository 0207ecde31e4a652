-- ===== src/User.antt =====
-- The user's threads: user/user_thread.c, user/user_thread_functions.c, user/user_thread_routine.c and
-- user/src/usr_start.c.
pub mod Blocks
pub mod Clients
pub mod Measure
pub mod Termination
pub mod Lines
pub mod Rights
mod MallocThread
mod Requests
mod Counting
mod Breach
mod Start
unfoldable pub use MallocThread.*
unfoldable pub use Counting.*
unfoldable pub use Breach.*
unfoldable pub use Start.*
pub use Requests.*
