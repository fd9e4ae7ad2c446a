-- ===== src/Tables/Logs.antt =====
-- A row of the reconciliation logs
-- (affiliate-reconciliation-backend/app/models/db/reconciliation_logs.py), with the columns that the
-- endpoints read.
use affiliate_platform.Prelude.{ℕ, String, Option, ℤ, Ratio}
use affiliate_platform.Enums.{ReconciliationStatus, DiscrepancyLevel}

pub record LogRow : Type 0 where
  pub id : ℕ
  pub affiliate_report_id : ℕ
  pub platform_report_id : Option ℕ
  pub status : ReconciliationStatus
  pub discrepancy_level : Option DiscrepancyLevel
  pub views_discrepancy : ℤ
  pub clicks_discrepancy : ℤ
  pub conversions_discrepancy : ℤ
  pub views_diff_pct : Option Ratio
  pub clicks_diff_pct : Option Ratio
  pub conversions_diff_pct : Option Ratio
  pub max_discrepancy_pct : Option Ratio
  pub trust_delta : Option ℤ
  pub attempt_count : ℕ
  pub notes : Option String
  pub processed_at : ℕ
