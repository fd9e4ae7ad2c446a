-- ===== src/Endpoints.antt =====
-- The endpoints that work on the results of reconciliation
-- (affiliate-reconciliation-backend/app/api/v1/endpoints: alerts.py, reconciliation.py).
pub mod Resolution
pub mod Statistics
pub mod Results
pub mod Trigger
pub mod Reconciled
mod Examples
