-- ===== src/Accounts.antt =====
-- The administration of clients, users and campaigns
-- (affiliate-reconciliation-backend/app/api/v1/endpoints: clients.py, users.py, campaigns.py) on the
-- tables. The ids and API keys of new rows are arguments; the database refuses a row that breaks a
-- constraint of affiliate-reconciliation-backend/app/models/db.
mod Clients
mod Users
mod Campaigns
pub mod References
pub mod Requests
pub mod Login
pub mod Platforms
pub mod ClientUsers
mod Examples
unfoldable pub use Clients.*
unfoldable pub use Users.*
unfoldable pub use Campaigns.*
