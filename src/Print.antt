-- ===== src/Print.antt =====
-- user/user_kprintf.c: the conversions of numbers and the loop over a format.
pub mod Digits
pub mod Format
pub mod Convert
pub mod Render
pub mod Strings
mod Defs
mod Kprintf
unfoldable pub use Defs.*
unfoldable pub use Kprintf.*
