-- ===== src/Endpoints/Results.antt =====
-- The results of reconciliation (affiliate-reconciliation-backend/app/api/v1/endpoints/
-- reconciliation.py: get_reconciliation_results, queue_snapshot, get_reconciliation_result), on the
-- tables. The response keeps the percentages of the log; times are microseconds.
mod Build
pub mod Paging
pub mod Details
mod Examples
unfoldable pub use Build.*
use affiliate_platform.Prelude.{
  some, [], ◌==◌, ◌&&◌, ◌∷◌, true, none, leb, false, length, Option, ℕ, Bool, List, if◌then◌else◌,
}
use affiliate_platform.Enums.{
  admin, client, ReconciliationStatus, DiscrepancyLevel, matched, discrepancy_low,
  discrepancy_medium, discrepancy_high, affiliate_overclaimed, missing_platform_data,
  incomplete_platform_data, unverifiable, skipped_suspended,
}
use affiliate_platform.Tables.{
  User, Platform, Post, AffiliateReport, Answer, granted, refused, and_then, or_refuse, not_found,
  server_error, unavailable, rows, limit, offset, first, unprocessable,
}
use affiliate_platform.Tables.Logs.{LogRow}
use affiliate_platform.Access.{require_role}
use affiliate_platform.JobQueue.{PriorityDelayQueue}
use affiliate_platform.JobQueue

-- The position of an enumeration's member, to compare by.
abbrev pub status_rank : ReconciliationStatus → ℕ
status_rank matched = 0
status_rank discrepancy_low = 1
status_rank discrepancy_medium = 2
status_rank discrepancy_high = 3
status_rank affiliate_overclaimed = 4
status_rank missing_platform_data = 5
status_rank incomplete_platform_data = 6
status_rank unverifiable = 7
status_rank skipped_suspended = 8

abbrev pub level_rank : DiscrepancyLevel → ℕ
level_rank DiscrepancyLevel.low = 0
level_rank DiscrepancyLevel.medium = 1
level_rank DiscrepancyLevel.high = 2
level_rank DiscrepancyLevel.critical = 3

-- A filter that is not given, or the empty text, passes everything.
abbrev pub has_log_status : Option ReconciliationStatus → LogRow → Bool
has_log_status none log = true
has_log_status (some s) log = status_rank log.status == status_rank s

abbrev pub same_level : Option DiscrepancyLevel → DiscrepancyLevel → Bool
same_level none l = false
same_level (some k) l = level_rank k == level_rank l

abbrev pub has_level : Option DiscrepancyLevel → LogRow → Bool
has_level none log = true
has_level (some l) log = same_level log.discrepancy_level l

abbrev pub passes_log_filters :
    Option ReconciliationStatus → Option DiscrepancyLevel → LogRow → Bool
passes_log_filters s l log = has_log_status s log && has_level l log

abbrev pub is_newer_log : LogRow → LogRow → Bool
is_newer_log a b = leb b.processed_at a.processed_at

-- All results of the query, in the order that the database gives them.
unfoldable pub matching_logs :
    (List LogRow → List LogRow)
    → List LogRow
    → Option ReconciliationStatus
    → Option DiscrepancyLevel
    → List LogRow
unfolding rows
matching_logs order_by logs s l = order_by (rows (passes_log_filters s l) logs)

-- `Query(50, ge=1, le=500)`.
abbrev pub is_page_limit : ℕ → Bool
is_page_limit n = leb 1 n && leb n 500

-- `get_reconciliation_results`, with how the database orders the rows by their time; the formatted dict
-- has the columns of the log. A filter is the member that its text names. The role is checked before
-- the limit.
unfoldable pub get_reconciliation_results :
    (List LogRow → List LogRow)
    → List LogRow
    → User
    → Option ReconciliationStatus
    → Option DiscrepancyLevel
    → ℕ
    → ℕ
    → Answer (List LogRow)
unfolding matching_logs offset limit require_role
get_reconciliation_results order_by logs user s l page_limit skip_count =
    and_then (require_role (admin ∷ client ∷ []) user) (λ _.
      if is_page_limit page_limit
      then granted (limit page_limit (offset skip_count (matching_logs order_by logs s l)))
      else refused unprocessable)

-- `snapshot` of the in-memory queue, and `queue_snapshot`.
pub record Snapshot : Type 0 where
  pub depth : ℕ
  pub ready : ℕ
  pub scheduled : ℕ
  pub shutdown : Bool

unfoldable pub snapshot : {J : Type 0} → PriorityDelayQueue J → Snapshot
snapshot q = record {
  depth = JobQueue.depth q;
  ready = length q.ready_heap;
  scheduled = length q.scheduled_heap;
  shutdown = q.is_shutdown;
}

unfoldable pub queue_snapshot :
    {J : Type 0} → Option (PriorityDelayQueue J) → User → Answer Snapshot
unfolding snapshot require_role
queue_snapshot queue user =
    and_then (require_role (admin ∷ client ∷ []) user)
      (λ _. and_then (or_refuse queue unavailable) (λ q. granted (snapshot q)))

abbrev pub is_log_for : ℕ → LogRow → Bool
is_log_for n log = log.affiliate_report_id == n

abbrev pub has_report_id : ℕ → AffiliateReport → Bool
has_report_id n r = r.id == n

abbrev pub has_post_id : ℕ → Post → Bool
has_post_id n p = p.id == n

abbrev pub has_platform_id : ℕ → Platform → Bool
has_platform_id n p = p.id == n

abbrev pub is_fetched : Option ℕ → FetchedReport → Bool
is_fetched none f = false
is_fetched (some n) f = f.report.id == n

-- A log without its report, or a report without its post, raises.
unfoldable pub with_post :
    ResultTables → LogRow → AffiliateReport → Option Post → Answer ReconciliationResult
unfolding build_reconciliation_result first
with_post t log r none = refused server_error
with_post t log r (some post) = granted (
    build_reconciliation_result log r post (first (has_platform_id post.platform_id) t.platforms)
      (first (is_fetched log.platform_report_id) t.platform_reports))

unfoldable pub with_report :
    ResultTables → LogRow → Option AffiliateReport → Answer ReconciliationResult
unfolding with_post first
with_report t log none = refused server_error
with_report t log (some r) = with_post t log r (first (has_post_id r.post_id) t.posts)

unfoldable pub with_log : ResultTables → Option LogRow → Answer ReconciliationResult
unfolding with_report first
with_log t none = refused not_found
with_log t (some log) = with_report t log (first (has_report_id log.affiliate_report_id) t.reports)

unfoldable pub get_reconciliation_result : ResultTables → User → ℕ → Answer ReconciliationResult
unfolding with_log require_role first
get_reconciliation_result t user affiliate_report_id =
    and_then (require_role (admin ∷ client ∷ []) user)
      (λ _. with_log t (first (is_log_for affiliate_report_id) t.logs))
