-- ===== src/Engine.antt =====
-- One reconciliation, affiliate-reconciliation-backend/app/services/reconciliation_engine.py. The
-- session is the report with the rows that are reached from it, and the tables that the run adds to.
-- The commit is taken to succeed: its second try is the database's concern.
mod Rows
pub mod Retries
pub mod Runs
pub mod Fetches
pub mod Answers
mod Examples
pub use Rows.*
use affiliate_platform.Config.{
  minute, hour, initial_delay_minutes, missing_max_attempts, window_hours, max_additional_attempts,
}
use affiliate_platform.Prelude.{
  ℕ, zero, ◌+◌, ◌-◌, ◌*◌, max, Bool, true, false, not, ◌&&◌, ◌||◌, Option, none, some, List, [],
  ◌∷◌, ltb, leb, if◌then◌else◌, is_some, get_or_else, ℤ, pos,
}
use affiliate_platform.Enums.{
  ReconciliationStatus, matched, discrepancy_high, affiliate_overclaimed, missing_platform_data,
  incomplete_platform_data,
}
use affiliate_platform.Trust.{TrustEvent, perfect_match, apply_trust_event}
use affiliate_platform.Classifier.{Reported, ClassificationResult, classify}
use affiliate_platform.Alerting.{Subject, maybe_create_alert}

-- `_schedule_retry`.
unfoldable pub schedule_retry : ReconciliationStatus → ℕ → ℕ → ℕ → Option ℕ
schedule_retry missing_platform_data attempt_count submitted_at now =
    if leb missing_max_attempts attempt_count
    then none
    else if ltb (window_hours * hour) (now - submitted_at)
    then none
    else some (now + initial_delay_minutes * max 1 attempt_count * minute)
schedule_retry incomplete_platform_data attempt_count submitted_at now =
    if leb attempt_count (1 + max_additional_attempts) then some (now + 15 * minute) else none
schedule_retry _ attempt_count submitted_at now = none

-- `_ensure_log`: the log of the report, or a new one.
unfoldable pub ensure_log : Option ReconciliationLog → ℕ → ReconciliationLog
ensure_log (some log) new_id = log
ensure_log none new_id = record {
  id = new_id;
  platform_report_id = none;
  status = missing_platform_data;
  result = none;
  attempt_count = 0;
  last_attempt_at = none;
  elapsed = 0;
  trust_delta = none;
  scheduled_retry_at = none;
  error_code = none;
  error_message = none;
  rate_limited = false;
}

-- The metrics of the outcome: all are None when there are none.
unfoldable pub reported : Option Reported → Reported
reported none = record { views = none; clicks = none; conversions = none }
reported (some metrics) = metrics

-- `user.trust_score or 0.5`: a score of zero counts as none.
unfoldable pub current_trust : Option ℤ → ℤ
current_trust none = pos 50
current_trust (some (pos zero)) = pos 50
current_trust (some score) = score

abbrev pub is_perfect : TrustEvent → Bool
is_perfect perfect_match = true
is_perfect _ = false

-- The trust scoring block, with the delta.
unfoldable pub score_user : User → ℕ → Option TrustEvent → User × ℤ
unfolding current_trust
score_user user now none = (user, pos 0)
score_user user now (some event) =
    let (new_trust, trust_delta) = apply_trust_event (current_trust user.trust_score) event in
    (
      record user {
        trust_score = some new_trust;
        last_trust_update = some now;
        accurate_submissions = user.accurate_submissions + (if is_perfect event then 1 else 0);
      },
      trust_delta,
    )

-- `trust_delta if trust_delta != 0 else None`.
abbrev pub nonzero : ℤ → Option ℤ
nonzero (pos zero) = none
nonzero d = some d

abbrev pub has_metric : Reported → Bool
has_metric r = is_some r.views || is_some r.clicks || is_some r.conversions

-- The platform report of an attempt with at least one metric.
unfoldable pub platform_report : Post → ℕ → Reported → Option PlatformReport
platform_report post new_id r =
    if has_metric r
    then some (record {
      id = new_id;
      post_id = post.id;
      platform_id = post.platform_id;
      metrics = record {
        views = get_or_else r.views 0;
        clicks = get_or_else r.clicks 0;
        conversions = get_or_else r.conversions 0;
      };
    })
    else none

-- `terminal_statuses`.
abbrev pub is_terminal : ReconciliationStatus → Bool
is_terminal matched = true
is_terminal affiliate_overclaimed = true
is_terminal discrepancy_high = true
is_terminal _ = false

-- The block that updates the log, and the retry that is written to it.
unfoldable pub update_log :
    ReconciliationLog
    → Inputs
    → ℕ
    → ClassificationResult
    → ℤ
    → Option PlatformReport
    → ReconciliationLog
unfolding schedule_retry
update_log log inputs submitted_at result trust_delta stored =
    let attempt_count = log.attempt_count + 1 in
    record log {
      platform_report_id = elim stored [ none ↦ log.platform_report_id | some r ↦ some r.id ];
      status = result.status;
      result = some result;
      attempt_count = attempt_count;
      last_attempt_at = some inputs.now;
      elapsed = inputs.now - submitted_at;
      trust_delta = nonzero trust_delta;
      scheduled_retry_at = schedule_retry result.status attempt_count submitted_at inputs.now;
      error_code = inputs.outcome.error_code;
      error_message = inputs.outcome.error_message;
      rate_limited = inputs.outcome.rate_limited;
    }

-- The classification of a run, for the time elapsed since the submission.
unfoldable pub classification : Session → Inputs → ClassificationResult
unfolding reported
classification s inputs =
    classify s.claim (reported inputs.outcome.platform_metrics) (inputs.now - s.submitted_at)
      inputs.outcome.partial_missing

-- `run_reconciliation` for a report that exists.
unfoldable pub run_reconciliation : Session → Inputs → Session
unfolding ensure_log score_user platform_report update_log classification
run_reconciliation s inputs =
    let result = classification s inputs in
    let (user, trust_delta) = score_user s.user inputs.now result.trust_event in
    let stored =
      platform_report s.post inputs.new_report_id (reported inputs.outcome.platform_metrics) in
    let log =
      update_log (ensure_log s.log inputs.new_log_id) inputs s.submitted_at result trust_delta
        stored in
    let retry_scheduled = is_some log.scheduled_retry_at in
    let done = is_terminal result.status && not retry_scheduled in
    let subject : Subject = record {
      log_id = log.id;
      status = log.status;
      discrepancy_level = result.discrepancy_level;
      user_id = user.id;
      platform_id = s.post.platform_id;
    } in
    let (alerts, _) =
      maybe_create_alert s.alerts subject retry_scheduled inputs.now inputs.db_now in
    record s {
      user = user;
      post = record s.post { is_reconciled = s.post.is_reconciled || done };
      log = some log;
      platform_reports = elim stored [
        | none ↦ s.platform_reports
        | some r ↦ r ∷ s.platform_reports
      ];
      alerts = alerts;
    }

-- The runs of one report one after the other.
unfoldable pub run_all : Session → List Inputs → Session
unfolding run_reconciliation
run_all s [] = s
run_all s (inputs ∷ rest) = run_all (run_reconciliation s inputs) rest
