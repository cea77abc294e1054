-- ===== src/App/Service.antt =====
-- The services on VPN users (backend/internal/app/vpn_service.go). The warnings that are only
-- logged leave no trace here.
mod Requests
mod Detail
mod Create
mod Change
pub mod Quota
unfoldable pub use Requests.*
unfoldable pub use Detail.*
unfoldable pub use Create.*
unfoldable pub use Change.*
