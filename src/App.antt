-- ===== src/App.antt =====
-- The application (backend/internal/app): services over a store and a router, and the handlers
-- of the requests.
mod State
mod Ovpn
mod Cert
mod Sync
pub mod Service
pub mod Pages
mod ByName
mod Dtos
mod Http
pub mod Keeps
mod Lists
pub mod Renewals
pub mod Handlers
unfoldable pub use State.*
unfoldable pub use Ovpn.*
unfoldable pub use Cert.*
unfoldable pub use Sync.*
unfoldable pub use Service.*
unfoldable pub use ByName.*
unfoldable pub use Dtos.*
unfoldable pub use Http.*
unfoldable pub use Lists.*
unfoldable pub use Renewals.*
