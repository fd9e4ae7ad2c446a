-- ===== src/Endpoints/Results/Examples.antt =====
-- The statistics of alerts and the results of reconciliation on small tables.
use affiliate_platform.Prelude.{
  arith, All, ◌++◌, ◌+◌, ◌≡◌, refl, none, some, [], ◌∷◌, pos, true, false,
}
use affiliate_platform.Enums.{admin, matched, open_alert, resolved}
use affiliate_platform.Tables.Logs.{LogRow}
use affiliate_platform.Endpoints.Resolution.{AlertRow}
use affiliate_platform.Endpoints.Statistics.{
  get_alert_stats, get_alert_stats-StatsMeans, StatsMeans,
}
use affiliate_platform.Endpoints.Results.{
  granted, List, User, ℕ, FetchedReport, AffiliateReport, Post, ResultTables, ReconciliationResult,
  get_reconciliation_result, get_reconciliation_results, is_newer_log, passes_log_filters,
  build_reconciliation_result,
}
use affiliate_platform.Endpoints.Results.Paging.{
  is_newer_log-IsOrder, get_reconciliation_results-pages,
}
use affiliate_platform.Endpoints.Results.Details.{
  ResultMeans, get_reconciliation_result-ResultMeans,
}
use affiliate_platform.Tables.Pages.{IsSorted}
use affiliate_platform.Tables.OrderBy.{IsOrderBy, ordered-IsOrderBy}
use affiliate_platform.Tables.{ordered, rows, refused, unprocessable}
use affiliate_platform.Access.{require_role}

abbrev alert : ℕ → AlertRow
alert n = record {
  id = n;
  alert_type = "MISSING_DATA";
  status = open_alert;
  resolved_by = none;
  resolved_at = none;
  resolution_notes = none;
  created_at = n;
}

abbrev alerts : List AlertRow
alerts = alert 1 ∷ record (alert 2) { status = resolved } ∷ alert 3 ∷ []

stats : (get_alert_stats alerts 9).by_type ≡ ("MISSING_DATA", 3) ∷ []
unfolding get_alert_stats
stats = refl

get_alert_stats-StatsMeans_example : StatsMeans alerts (get_alert_stats alerts 9)
get_alert_stats-StatsMeans_example = get_alert_stats-StatsMeans alerts 9

abbrev log : ℕ → LogRow
log n = record {
  id = n;
  affiliate_report_id = n + 10;
  platform_report_id = some 5;
  status = matched;
  discrepancy_level = none;
  views_discrepancy = pos 3;
  clicks_discrepancy = pos 0;
  conversions_discrepancy = pos 0;
  views_diff_pct = none;
  clicks_diff_pct = none;
  conversions_diff_pct = none;
  max_discrepancy_pct = none;
  trust_delta = none;
  attempt_count = 1;
  notes = none;
  processed_at = n;
}

abbrev logs : List LogRow
logs = log 1 ∷ log 2 ∷ log 3 ∷ []

abbrev root : User
root = record {
  id = 1;
  name = "root";
  email = "root@example.com";
  api_key = none;
  discord_user_id = none;
  is_active = true;
  role = admin;
  client_id = none;
  trust_score = none;
  total_submissions = 0;
}

-- A database that keeps the order of rows with equal times.
abbrev newest_first : List LogRow → List LogRow
newest_first = ordered is_newer_log

newest_first-IsOrderBy : IsOrderBy LogRow is_newer_log newest_first
newest_first-IsOrderBy = ordered-IsOrderBy is_newer_log is_newer_log-IsOrder

get_reconciliation_results-pages_example :
    (a : List LogRow) × (b : List LogRow) × (get_reconciliation_results newest_first logs root
        (some matched)
        none
        2
        0
      ≡ granted a)
    × (get_reconciliation_results newest_first logs root (some matched) none 2 (0 + 2) ≡ granted b)
    × (get_reconciliation_results newest_first logs root (some matched) none (2 + 2) 0
        ≡ granted (a ++ b))
    × IsSorted is_newer_log (a ++ b)
    × All (λ x. passes_log_filters (some matched) none x ≡ true) (a ++ b)
unfolding rows
get_reconciliation_results-pages_example =
    get_reconciliation_results-pages logs root (some matched) none newest_first newest_first
      newest_first 2 2 0 newest_first-IsOrderBy newest_first-IsOrderBy newest_first-IsOrderBy
      ((refl, (refl, tt)), ((refl, tt), (tt, tt))) refl (omega arith) (omega arith) (omega arith)

no_empty_page :
    get_reconciliation_results newest_first logs root none none 0 0 ≡ refused unprocessable
unfolding get_reconciliation_results require_role
no_empty_page = refl

abbrev report : AffiliateReport
report = record {
  id = 11;
  post_id = 7;
  claim = record { views = 103; clicks = 2; conversions = 0 };
  has_evidence = false;
  suspicion_flags = [];
  submitted_at = 0;
}

abbrev post : Post
post = record {
  id = 7;
  campaign_id = 3;
  user_id = 4;
  platform_id = 1;
  url = [];
  title = none;
  description = none;
  created_at = 0;
}

abbrev fetched : FetchedReport
fetched = record {
  report = record {
    id = 5;
    post_id = 7;
    platform_id = 1;
    metrics = record { views = 100; clicks = 2; conversions = 0 };
  };
  fetched_at = 9;
}

abbrev tables : ResultTables
tables = record {
  logs = logs;
  reports = report ∷ [];
  posts = post ∷ [];
  platforms = [];
  platform_reports = fetched ∷ [];
}

abbrev result : ReconciliationResult
result = build_reconciliation_result (log 1) report post none (some fetched)

shown : get_reconciliation_result tables root 11 ≡ granted result
unfolding get_reconciliation_result
shown = refl

get_reconciliation_result-ResultMeans_example : ResultMeans tables 11 result
get_reconciliation_result-ResultMeans_example =
    get_reconciliation_result-ResultMeans tables root 11 result shown
