-- ===== src/Analytics.antt =====
-- The analytics of a campaign
-- (affiliate-reconciliation-backend/app/api/v1/endpoints/analytics.py): the joins, sums and groups of
-- its queries on the tables. The success rate is in ten-thousandths; the request id and the log lines
-- are left out.
pub mod Totals
pub mod Breakdown
pub mod Health
mod Examples
use affiliate_platform.Prelude.{
  ℕ, ◌-◌, ◌*◌, String, Bool, true, false, ◌&&◌, Option, none, some, List, map, leb, ltb, ◌==◌,
  if◌then◌else◌, length, same, round_half_even,
}
use affiliate_platform.Enums.{
  AlertSeverity, AlertStatus, ReconciliationStatus, matched, discrepancy_low,
}
use affiliate_platform.Classifier.{Claim}
use affiliate_platform.Engine.{PlatformReport}
use affiliate_platform.Tables.{
  User, Campaign, Platform, Post, AffiliateReport, Answer, granted, and_then, rows, ordered, limit,
}
use affiliate_platform.Tables.Joins.{inner_join, left_join, total, one_if}
use affiliate_platform.Tables.Groups.{grouped}
use affiliate_platform.Tables.Logs.{LogRow}
use affiliate_platform.Access.{get_campaign_if_authorized}

-- The columns of an alert that are shown.
pub record AlertSummary : Type 0 where
  pub id : ℕ
  pub reconciliation_log_id : ℕ
  pub severity : AlertSeverity
  pub status : AlertStatus
  pub title : String
  pub created_at : ℕ

pub record Facts : Type 0 where
  pub posts : List Post
  pub platforms : List Platform
  pub platform_reports : List PlatformReport
  pub reports : List AffiliateReport
  pub logs : List LogRow
  pub alerts : List AlertSummary

-- The conditions of the joins.
abbrev pub reports_post : Post → PlatformReport → Bool
reports_post p r = r.post_id == p.id

abbrev pub is_posted_on : Platform → Post → Bool
is_posted_on f p = p.platform_id == f.id

abbrev pub is_on_post : AffiliateReport → Post → Bool
is_on_post r p = p.id == r.post_id

abbrev pub in_campaign : ℕ → Post → Bool
in_campaign campaign_id p = p.campaign_id == campaign_id

-- A column of a platform report that the outer join may have left NULL.
abbrev pub column : (Claim → ℕ) → Option PlatformReport → ℕ
column m none = 0
column m (some r) = m r.metrics

abbrev pub metric_of {ℓ} : {A : Type ℓ} → (Claim → ℕ) → A × Option PlatformReport → ℕ
metric_of m row = column m row.1

pub record Metrics : Type 0 where
  pub views : ℕ
  pub clicks : ℕ
  pub conversions : ℕ

abbrev pub sums {ℓ} : {A : Type ℓ} → List (A × Option PlatformReport) → Metrics
sums l = record {
  views = total (metric_of (λ c. c.views)) l;
  clicks = total (metric_of (λ c. c.clicks)) l;
  conversions = total (metric_of (λ c. c.conversions)) l;
}

-- `totals_query`: the rows, their number, and the sums.
unfoldable pub totals_rows : Facts → ℕ → List (Post × Option PlatformReport)
unfolding rows left_join
totals_rows t campaign_id =
    rows (λ row. in_campaign campaign_id row.0) (left_join reports_post t.posts t.platform_reports)

-- `recon_query`.
abbrev pub is_log_of : AffiliateReport × Post → LogRow → Bool
is_log_of row log = log.affiliate_report_id == row.0.id

unfoldable pub recon_rows : Facts → ℕ → List ((AffiliateReport × Post) × Option LogRow)
unfolding rows left_join inner_join
recon_rows t campaign_id =
    rows (λ row. in_campaign campaign_id row.0.1)
      (left_join is_log_of (inner_join is_on_post t.reports t.posts) t.logs)

-- SUCCESS_STATUSES
abbrev pub is_success : ReconciliationStatus → Bool
is_success matched = true
is_success discrepancy_low = true
is_success _ = false

abbrev pub success_log : Option LogRow → Bool
success_log none = false
success_log (some log) = is_success log.status

abbrev pub has_no_log : Option LogRow → Bool
has_no_log none = true
has_no_log (some log) = false

pub record Reconciliation : Type 0 where
  pub success_rate : Option ℕ
  pub pending_reports : ℕ
  pub total_reconciled : ℕ

abbrev pub rate_of : ℕ → ℕ → Option ℕ
rate_of success reconciled =
    if ltb 0 reconciled then some (round_half_even (success * 10000) reconciled) else none

unfoldable pub health_of : List ((AffiliateReport × Post) × Option LogRow) → Reconciliation
unfolding total
health_of l =
    let pending = total (λ row. one_if (has_no_log row.1)) l in
    let reconciled = length l - pending in
    record {
      success_rate = rate_of (total (λ row. one_if (success_log row.1)) l) reconciled;
      pending_reports = pending;
      total_reconciled = reconciled;
    }

-- `platform_rows`, before they are grouped.
abbrev pub reports_joined : Platform × Post → PlatformReport → Bool
reports_joined row r = reports_post row.1 r

unfoldable pub breakdown_rows : Facts → ℕ → List ((Platform × Post) × Option PlatformReport)
unfolding rows left_join inner_join
breakdown_rows t campaign_id =
    rows (λ row. in_campaign campaign_id row.0.1)
      (left_join reports_joined (inner_join is_posted_on t.platforms t.posts) t.platform_reports)

abbrev pub platform_key : (Platform × Post) × Option PlatformReport → ℕ × String
platform_key row = (row.0.0.id, row.0.0.name)

abbrev pub same_platform : ℕ × String → ℕ × String → Bool
same_platform k j = k.0 == j.0 && same k.1 j.1

pub record PlatformShare : Type 0 where
  pub platform_id : ℕ
  pub platform_name : String
  pub metrics : Metrics

abbrev pub share_of :
    (ℕ × String) × List ((Platform × Post) × Option PlatformReport) → PlatformShare
share_of g = record { platform_id = g.0.0; platform_name = g.0.1; metrics = sums g.1 }

unfoldable pub platform_breakdown : Facts → ℕ → List PlatformShare
unfolding breakdown_rows grouped
platform_breakdown t campaign_id =
    map share_of (grouped same_platform platform_key (breakdown_rows t campaign_id))

-- `recent_alerts`: the alerts with the rows that they are joined with.
abbrev pub is_log : AlertSummary → LogRow → Bool
is_log a log = log.id == a.reconciliation_log_id

abbrev pub is_report : AlertSummary × LogRow → AffiliateReport → Bool
is_report row r = r.id == row.1.affiliate_report_id

abbrev pub is_joined_post : (AlertSummary × LogRow) × AffiliateReport → Post → Bool
is_joined_post row p = is_on_post row.1 p

abbrev pub AlertLine : Type 0
AlertLine = ((AlertSummary × LogRow) × AffiliateReport) × Post

abbrev pub is_newer_line : AlertLine → AlertLine → Bool
is_newer_line a b = leb b.0.0.0.created_at a.0.0.0.created_at

unfoldable pub recent_alerts : Facts → ℕ → List AlertLine
unfolding rows inner_join ordered limit
recent_alerts t campaign_id = limit 5 (
    ordered is_newer_line (
      rows (λ row. in_campaign campaign_id row.1)
        (inner_join is_joined_post
          (inner_join is_report (inner_join is_log t.alerts t.logs) t.reports) t.posts)))

abbrev pub alert_of : AlertLine → AlertSummary
alert_of line = line.0.0.0

pub record Analytics : Type 0 where
  pub campaign_id : ℕ
  pub campaign_name : String
  pub client_id : ℕ
  pub posts : ℕ
  pub totals : Metrics
  pub reconciliation : Reconciliation
  pub platform_breakdown : List PlatformShare
  pub recent_alerts : List AlertSummary

unfoldable pub analytics_of : Facts → ℕ → Campaign → Analytics
unfolding totals_rows recon_rows health_of platform_breakdown recent_alerts
analytics_of t campaign_id campaign = record {
  campaign_id = campaign_id;
  campaign_name = campaign.name;
  client_id = campaign.client_id;
  posts = length (totals_rows t campaign_id);
  totals = sums (totals_rows t campaign_id);
  reconciliation = health_of (recon_rows t campaign_id);
  platform_breakdown = platform_breakdown t campaign_id;
  recent_alerts = map alert_of (recent_alerts t campaign_id);
}

unfoldable pub get_campaign_analytics :
    List User → List Campaign → Facts → String → ℕ → Answer Analytics
unfolding get_campaign_if_authorized analytics_of
get_campaign_analytics users campaigns t api_key campaign_id =
    and_then (get_campaign_if_authorized users campaigns api_key campaign_id)
      (λ campaign. granted (analytics_of t campaign_id campaign))
