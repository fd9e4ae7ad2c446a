-- ===== src/Submissions.antt =====
-- The submission endpoints
-- (affiliate-reconciliation-backend/app/api/v1/endpoints/submissions.py) on the database and the
-- queue of reconciliation jobs. The ids that the database gives to new rows, its clock, and Reddit's
-- replies are arguments.
mod Records
mod Creation
mod Updates
mod Queries
pub mod Outcomes
pub mod Invariant
pub mod Updating
pub mod Resubmission
pub mod History
pub mod Jobs
mod Examples
unfoldable pub use Records.*
unfoldable pub use Creation.*
unfoldable pub use Updates.*
unfoldable pub use Queries.*
