-- ===== src/Engine/Examples.antt =====
-- Reconciliations of a small session.
use affiliate_platform.Breaker.{allow_call}
use affiliate_platform.Prelude.{
  ◌≤◌, lookup, ℕ, ◌*◌, ◌≡◌, refl, false, none, some, List, [], ◌∷◌, arith, pos, int_laws,
  round_half_even,
}
use affiliate_platform.Engine.Answers.{
  reconcile-LogsAnswer, LogsAnswer, reconcile_all-WithoutFunction,
}
use affiliate_platform.Fetcher.{without_function, fetch, call_adapter}
use affiliate_platform.Engine.Fetches.{
  reconcile, outcome_for, reconcile_all, Surroundings, fetch_for,
}
use affiliate_platform.Config.{hour, max_attempts}
use affiliate_platform.Trust.{overclaim}
use affiliate_platform.Classifier.{Claim, classify, determine_status, at_most}
use affiliate_platform.Metrics.{apply_growth_allowance, pct_diff}
use affiliate_platform.Alerting.{alerts_of}
use affiliate_platform.Alerting.Escalation.{OnePerLog}
use affiliate_platform.Engine.{
  Session, Inputs, classification, reported, run_reconciliation, run_all,
}
use affiliate_platform.Engine.Retries.{scheduled, attempts_end}
use affiliate_platform.Engine.Runs.{
  ScoreInScale, run_all-ScoreInScale, run_all-OnePerLog, run_reconciliation-after_overclaim,
}

abbrev claimed : Claim
claimed = record { views = 1600; clicks = 100; conversions = 10 }

-- A submission of a user whose trust score is 0.00.
abbrev submitted : Session
submitted = record {
  claim = claimed;
  submitted_at = 0;
  user = record {
    id = 7;
    trust_score = some (pos 0);
    last_trust_update = none;
    accurate_submissions = 0;
  };
  post = record { id = 3; platform_id = 2; is_reconciled = false };
  log = none;
  platform_reports = [];
  alerts = [];
}

abbrev answered : Inputs
answered = record {
  now = 0;
  db_now = 0;
  new_log_id = 1;
  new_report_id = 1;
  outcome = record {
    platform_metrics =
        some (record { views = some 1000; clicks = some 100; conversions = some 10 });
    partial_missing = [];
    error_code = none;
    error_message = none;
    rate_limited = false;
  };
}

abbrev unanswered_at : ℕ → Inputs
unanswered_at t = record answered {
  now = t;
  db_now = t;
  outcome = record {
    platform_metrics = none;
    partial_missing = "views" ∷ "clicks" ∷ "conversions" ∷ [];
    error_code = some "fetch_error";
    error_message = some "timeout";
    rate_limited = false;
  };
}

abbrev four_attempts : List Inputs
four_attempts =
    unanswered_at 0 ∷ unanswered_at hour ∷ unanswered_at (2 * hour) ∷ unanswered_at (3 * hour) ∷ []

attempts_end_example :
    scheduled (run_reconciliation (run_all submitted four_attempts) (unanswered_at (4 * hour))).log
    ≡ none
attempts_end_example = attempts_end submitted four_attempts (unanswered_at (4 * hour)) (omega arith)

empty-OnePerLog : OnePerLog []
unfolding alerts_of
empty-OnePerLog log_id = omega arith

run_all-OnePerLog_example : OnePerLog (run_all submitted (answered ∷ answered ∷ [])).alerts
run_all-OnePerLog_example = run_all-OnePerLog submitted (answered ∷ answered ∷ []) empty-OnePerLog

run_all-ScoreInScale_example :
    ScoreInScale (run_all submitted (answered ∷ answered ∷ [])).user.trust_score
run_all-ScoreInScale_example =
    run_all-ScoreInScale submitted (answered ∷ answered ∷ []) (omega int_laws, omega int_laws)

overclaimed_now : (classification submitted answered).trust_event ≡ some overclaim
unfolding classification reported classify determine_status at_most apply_growth_allowance
    round_half_even pct_diff
overclaimed_now = refl

run_reconciliation-after_overclaim_example :
    (run_reconciliation submitted answered).user.trust_score ≡ some (pos 40)
run_reconciliation-after_overclaim_example =
    run_reconciliation-after_overclaim submitted answered 0 refl (omega arith) overclaimed_now

-- A run whose adapter has no function to call: three attempts fail, and the log says so.
abbrev unsupported : Surroundings
unsupported = record {
  calls = λ n. call_adapter "tiktok" without_function;
  clock = λ n. n;
  now = hour;
  db_now = hour;
  new_log_id = 1;
  new_report_id = 1;
}

fetched_nothing :
    let fetched = (fetch_for "tiktok" [] unsupported).1 in
    (fetched.attempts ≡ 3)
    × ((outcome_for fetched).error_code ≡ some "adapter_missing")
    × ((outcome_for fetched).error_message ≡ some "Adapter missing fetch_post_metrics for tiktok")
unfolding fetch_for outcome_for fetch allow_call lookup call_adapter
fetched_nothing = (refl, refl, refl)

reconcile-LogsAnswer_example :
    let fetched = (fetch_for "tiktok" [] unsupported).1 in
    (fetched.attempts ≤ max_attempts)
    × LogsAnswer submitted fetched.platform_metrics
        (reconcile "tiktok" ([], submitted) unsupported).1
reconcile-LogsAnswer_example = reconcile-LogsAnswer "tiktok" [] submitted unsupported

reconcile_all-WithoutFunction_example :
    let after = (reconcile_all "tiktok" ([], submitted) (unsupported ∷ unsupported ∷ [])).1 in
    (after.user ≡ submitted.user) × (after.post ≡ submitted.post) × (after.platform_reports ≡ [])
reconcile_all-WithoutFunction_example =
    reconcile_all-WithoutFunction "tiktok" [] submitted (unsupported ∷ unsupported ∷ [])
      (λ n. refl, (λ n. refl, tt))
