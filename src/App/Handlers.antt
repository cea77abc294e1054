-- ===== src/App/Handlers.antt =====
-- The handlers of the requests on VPN users.
mod Download
mod Session
mod Account
mod Renewals
mod Managers
mod PatchManager
mod Lists
mod ByName
mod ById
mod Admin
pub mod Refusals
pub mod Unlisted
pub mod Logins
pub mod Unchanged
pub mod Settlement
pub mod Bootstrap
pub mod Passwords
pub mod Ownership
pub mod RowOwnership
unfoldable pub use Download.*
unfoldable pub use ByName.*
unfoldable pub use ById.*
unfoldable pub use Admin.*
unfoldable pub use Session.*
unfoldable pub use Account.*
unfoldable pub use Renewals.*
unfoldable pub use Managers.*
unfoldable pub use PatchManager.*
unfoldable pub use Lists.*
