-- ===== src/Tables.antt =====
-- The rows of the database that the endpoints read and write
-- (affiliate-reconciliation-backend/app/models/db), the queries on a table that they share, and the
-- answers of an endpoint. Scores are hundredths, times microseconds.
pub mod Queries
pub mod Joins
pub mod Groups
pub mod Logs
pub mod Pages
pub mod OrderBy
unfoldable pub use Queries.*
use affiliate_platform.Prelude.{ℕ, ◌*◌, String, Bool, not, Option, none, some, List, ℤ, Text}
use affiliate_platform.Enums.{UserRole, CampaignStatus}
use affiliate_platform.Classifier.{Claim}
use affiliate_platform.Quality.{Flag}

pub record User : Type 0 where
  pub id : ℕ
  pub name : String
  pub email : String
  pub api_key : Option String
  pub discord_user_id : Option String
  pub is_active : Bool
  pub role : UserRole
  pub client_id : Option ℕ
  pub trust_score : Option ℤ
  pub total_submissions : ℕ

pub record Client : Type 0 where
  pub id : ℕ
  pub name : String

-- `platform_ids` are the keys of the association table.
pub record Campaign : Type 0 where
  pub id : ℕ
  pub name : String
  pub client_id : ℕ
  pub created_by : ℕ
  pub status : CampaignStatus
  pub platform_ids : List ℕ

pub record Platform : Type 0 where
  pub id : ℕ
  pub name : String
  pub is_active : Bool

pub record Post : Type 0 where
  pub id : ℕ
  pub campaign_id : ℕ
  pub user_id : ℕ
  pub platform_id : ℕ
  pub url : Text
  pub title : Option String
  pub description : Option String
  pub created_at : ℕ

-- `suspicion_flags` is empty where the column is NULL; of the evidence only its presence is kept.
pub record AffiliateReport : Type 0 where
  pub id : ℕ
  pub post_id : ℕ
  pub claim : Claim
  pub has_evidence : Bool
  pub suspicion_flags : List Flag
  pub submitted_at : ℕ

-- The tables; `logged` holds the report of each reconciliation log.
pub record Database : Type 0 where
  pub users : List User
  pub clients : List Client
  pub campaigns : List Campaign
  pub platforms : List Platform
  pub posts : List Post
  pub reports : List AffiliateReport
  pub logged : List ℕ
  pub foreign_keys : Bool

-- The status codes 400, 401, 403, 404, 409, 422, 500 and 503.
pub data Refusal : Type 0 where
  bad_request unauthorized forbidden not_found : Refusal
  conflict unprocessable server_error unavailable : Refusal

-- What an endpoint answers: a value, or an HTTPException with its status code.
pub data Answer (A : Type 0) : Type 0 where
  granted : A → Answer A
  refused : Refusal → Answer A

module _ {A : Type 0} where
  -- `if not row: raise HTTPException(...)`.
  abbrev pub or_refuse : Option A → Refusal → Answer A
  or_refuse none reason = refused reason
  or_refuse (some a) reason = granted a

-- One step after another: a refusal ends the request.
abbrev pub and_then : {A B : Type 0} → Answer A → (A → Answer B) → Answer B
and_then (granted a) k = k a
and_then (refused reason) k = refused reason
