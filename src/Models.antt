-- ===== src/Models.antt =====
-- The tables that the execution code reads and writes (backend/etfpulse/models), and the session.
mod Enums
mod Rows
mod Session
pub mod Checks
pub use Enums.*
pub use Rows.*
unfoldable pub use Session.*
