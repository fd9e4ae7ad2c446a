-- ===== src/Enums.antt =====
-- The enumerations of affiliate-reconciliation-backend/app/models/db: enums.py, reconciliation_logs.py
-- and alerts.py. `TrustEvent` stands in Trust.

pub data UserRole : Type 0 where
  affiliate client admin : UserRole

pub data ReconciliationStatus : Type 0 where
  matched discrepancy_low discrepancy_medium discrepancy_high : ReconciliationStatus
  affiliate_overclaimed missing_platform_data incomplete_platform_data : ReconciliationStatus
  unverifiable skipped_suspended : ReconciliationStatus

pub data DiscrepancyLevel : Type 0 where
  low medium high critical : DiscrepancyLevel

pub data AlertSeverity : Type 0 where
  low medium high critical : AlertSeverity

pub data AlertCategory : Type 0 where
  data_quality fraud system_health : AlertCategory

pub data AlertType : Type 0 where
  type_high_discrepancy type_missing_data type_suspicious_claim type_system_error : AlertType

pub data AlertStatus : Type 0 where
  open_alert resolved : AlertStatus

pub data CampaignStatus : Type 0 where
  active paused ended : CampaignStatus
