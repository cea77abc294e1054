-- ===== src/Store.antt =====
-- The panel's database (backend/internal/store): what each SQL statement does to the tables of
-- schema.sql. Tables are lists in the order of their ids, which is the order of insertion. A
-- statement that breaks a constraint fails and changes nothing.
mod Rows
mod Tables
mod Managers
mod Metas
mod Activations
pub mod Renewals
mod Interface
pub mod Settle
pub mod Writes
pub use Interface.*
pub use Rows.*
unfoldable pub use Tables.*
unfoldable pub use Managers.*
unfoldable pub use Metas.*
unfoldable pub use Activations.*
unfoldable pub use Renewals.*
