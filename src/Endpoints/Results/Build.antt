-- ===== src/Endpoints/Results/Build.antt =====
-- `_build_reconciliation_result`
-- (affiliate-reconciliation-backend/app/api/v1/endpoints/reconciliation.py), on rows.
use affiliate_platform.Prelude.{
  pos, some, [], ◌∷◌, Ratio, ℤ, none, ◌+ℤ◌, String, Option, ℕ, List, Text,
}
use affiliate_platform.Classifier.{Claim}
use affiliate_platform.Engine.{PlatformReport}
use affiliate_platform.Tables.{Platform, Post, AffiliateReport}
use affiliate_platform.Tables.Logs.{LogRow}

-- A platform report with the time of its fetch.
pub record FetchedReport : Type 0 where
  pub report : PlatformReport
  pub fetched_at : ℕ

pub record ResultTables : Type 0 where
  pub logs : List LogRow
  pub reports : List AffiliateReport
  pub posts : List Post
  pub platforms : List Platform
  pub platform_reports : List FetchedReport

-- models/schemas/base.py
pub record UnifiedMetrics : Type 0 where
  pub metrics : Claim
  pub post_url : Text
  pub platform_name : String
  pub timestamp : ℕ
  pub source : String

pub record DiscrepancyDetail : Type 0 where
  pub metric : String
  pub claimed : ℕ
  pub observed : Option ℕ
  pub absolute_diff : ℤ
  pub pct_diff : Option Ratio

-- `event` is none, since a log has no such attribute; scores are hundredths.
pub record TrustScoreChange : Type 0 where
  pub event : Option String
  pub previous : ℤ
  pub new : ℤ
  pub delta : ℤ

pub record ReconciliationJobPayload : Type 0 where
  pub attempt_count : ℕ
  pub max_attempts : Option ℕ
  pub next_retry_at : Option ℕ
  pub queue_priority : Option String

-- The legacy columns of the response are those of the log.
pub record ReconciliationResult : Type 0 where
  pub log : LogRow
  pub affiliate_metrics : UnifiedMetrics
  pub platform_metrics : Option UnifiedMetrics
  pub discrepancies : List DiscrepancyDetail
  pub max_discrepancy_pct : Option Ratio
  pub trust_change : Option TrustScoreChange
  pub job : ReconciliationJobPayload

abbrev pub name_of : Option Platform → String
name_of none = "unknown"
name_of (some p) = p.name

abbrev pub claimed_metrics : AffiliateReport → Post → String → UnifiedMetrics
claimed_metrics r post name = record {
  metrics = r.claim;
  post_url = post.url;
  platform_name = name;
  timestamp = r.submitted_at;
  source = "user_claim";
}

abbrev pub observed_metrics : Option FetchedReport → Post → String → Option UnifiedMetrics
observed_metrics none post name = none
observed_metrics (some f) post name = some (record {
  metrics = f.report.metrics;
  post_url = post.url;
  platform_name = name;
  timestamp = f.fetched_at;
  source = "platform_api";
})

abbrev pub observed : (Claim → ℕ) → Option UnifiedMetrics → Option ℕ
observed m none = none
observed m (some u) = some (m u.metrics)

abbrev pub details : LogRow → Claim → Option UnifiedMetrics → List DiscrepancyDetail
details log c u =
    record {
      metric = "views";
      claimed = c.views;
      observed = observed (λ x. x.views) u;
      absolute_diff = log.views_discrepancy;
      pct_diff = log.views_diff_pct;
    }
    ∷ record {
      metric = "clicks";
      claimed = c.clicks;
      observed = observed (λ x. x.clicks) u;
      absolute_diff = log.clicks_discrepancy;
      pct_diff = log.clicks_diff_pct;
    }
    ∷ record {
      metric = "conversions";
      claimed = c.conversions;
      observed = observed (λ x. x.conversions) u;
      absolute_diff = log.conversions_discrepancy;
      pct_diff = log.conversions_diff_pct;
    }
    ∷ []

abbrev pub change_of : Option ℤ → Option TrustScoreChange
change_of none = none
change_of (some delta) =
    some (record { event = none; previous = pos 0; new = pos 0 +ℤ delta; delta = delta })

unfoldable pub build_reconciliation_result :
    LogRow → AffiliateReport → Post → Option Platform → Option FetchedReport → ReconciliationResult
unfolding ◌+ℤ◌
build_reconciliation_result log r post platform fetched =
    let seen = observed_metrics fetched post (name_of platform) in
    record {
      log = log;
      affiliate_metrics = claimed_metrics r post (name_of platform);
      platform_metrics = seen;
      discrepancies = details log r.claim seen;
      max_discrepancy_pct = log.max_discrepancy_pct;
      trust_change = change_of log.trust_delta;
      job = record {
        attempt_count = log.attempt_count;
        max_attempts = none;
        next_retry_at = none;
        queue_priority = none;
      };
    }
