-- ===== src/Engine/Rows.antt =====
-- The rows that a reconciliation reads and writes, and what it takes from outside
-- (affiliate-reconciliation-backend/app/models/db and services/platform_fetcher.py).
use affiliate_platform.Prelude.{ℕ, String, Bool, Option, List, ℤ}
use affiliate_platform.Enums.{ReconciliationStatus}
use affiliate_platform.Classifier.{Claim, Reported, ClassificationResult}
use affiliate_platform.Alerting.{Alert}

-- The columns of a user that a run reads or writes; the score is in hundredths.
pub record User : Type 0 where
  pub id : ℕ
  pub trust_score : Option ℤ
  pub last_trust_update : Option ℕ
  pub accurate_submissions : ℕ

pub record Post : Type 0 where
  pub id : ℕ
  pub platform_id : ℕ
  pub is_reconciled : Bool

pub record PlatformReport : Type 0 where
  pub id : ℕ
  pub post_id : ℕ
  pub platform_id : ℕ
  pub metrics : Claim

-- A reconciliation log; `result` stands for the columns that are copied from the classification, and
-- is none for a new log.
pub record ReconciliationLog : Type 0 where
  pub id : ℕ
  pub platform_report_id : Option ℕ
  pub status : ReconciliationStatus
  pub result : Option ClassificationResult
  pub attempt_count : ℕ
  pub last_attempt_at : Option ℕ
  pub elapsed : ℕ
  pub trust_delta : Option ℤ
  pub scheduled_retry_at : Option ℕ
  pub error_code : Option String
  pub error_message : Option String
  pub rate_limited : Bool

-- `FetchOutcome`, less the fields that a run does not read.
pub record FetchOutcome : Type 0 where
  pub platform_metrics : Option Reported
  pub partial_missing : List String
  pub error_code : Option String
  pub error_message : Option String
  pub rate_limited : Bool

pub record Session : Type 0 where
  pub claim : Claim
  pub submitted_at : ℕ
  pub user : User
  pub post : Post
  pub log : Option ReconciliationLog
  pub platform_reports : List PlatformReport
  pub alerts : List Alert

-- What a run takes from outside: the clocks, the identifiers that the database would give to new
-- rows, and what the fetcher answers.
pub record Inputs : Type 0 where
  pub now : ℕ
  pub db_now : ℕ
  pub new_log_id : ℕ
  pub new_report_id : ℕ
  pub outcome : FetchOutcome
