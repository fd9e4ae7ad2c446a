-- ===== src/Engine/Fetches.antt =====
-- A reconciliation with the fetch that it makes
-- (affiliate-reconciliation-backend/app/services/reconciliation_engine.py and platform_fetcher.py).
use affiliate_platform.Config.{max_attempts}
use affiliate_platform.Prelude.{followed_by, ℕ, ◌-◌, String, Option, none, some, List, [], ◌∷◌}
use affiliate_platform.Breaker.{Breakers, Reason, circuit_open, half_open_probe_exhausted}
use affiliate_platform.Fetcher.{
  ErrorCode, adapter_missing, invalid_adapter_return, rate_limited, auth_error, fetch_error, Call,
  Cause, denied, call_failed, Fetched, fetch,
}
use affiliate_platform.Engine.{FetchOutcome, Session, Inputs, run_reconciliation}

-- The error codes as they are written to the log.
unfoldable pub code_text : ErrorCode → String
code_text adapter_missing = "adapter_missing"
code_text invalid_adapter_return = "invalid_adapter_return"
code_text rate_limited = "rate_limited"
code_text auth_error = "auth_error"
code_text fetch_error = "fetch_error"

unfoldable pub reason_text : Reason → String
reason_text circuit_open = "circuit_open"
reason_text half_open_probe_exhausted = "half_open_probe_exhausted"

-- An optional reason between the braces of a formatted text.
unfoldable pub shown_reason : Option Reason → String
unfolding reason_text
shown_reason none = "None"
shown_reason (some r) = reason_text r

-- `error_code` of the outcome.
unfoldable pub error_code_of : Option Cause → Option String
unfolding code_text reason_text
error_code_of none = none
error_code_of (some (denied none)) = none
error_code_of (some (denied (some r))) = some (reason_text r)
error_code_of (some (call_failed code message)) = some (code_text code)

-- `error_message` of the outcome.
unfoldable pub error_message_of : Option Cause → Option String
unfolding shown_reason
error_message_of none = none
error_message_of (some (denied r)) =
    some (followed_by "Circuit breaker denies call: " (shown_reason r))
error_message_of (some (call_failed code message)) = some message

-- What the engine reads of a fetch.
unfoldable pub outcome_for : Fetched → FetchOutcome
unfolding error_code_of error_message_of
outcome_for f = record {
  platform_metrics = f.platform_metrics;
  partial_missing = f.partial_missing;
  error_code = error_code_of f.cause;
  error_message = error_message_of f.cause;
  rate_limited = f.was_rate_limited;
}

-- What a run with its fetch takes from outside: the calls of the adapter and their times, the clocks
-- of the run, and the identifiers that the database would give to new rows.
pub record Surroundings : Type 0 where
  pub calls : ℕ → Call
  pub clock : ℕ → ℕ
  pub now : ℕ
  pub db_now : ℕ
  pub new_log_id : ℕ
  pub new_report_id : ℕ

-- What the run takes from outside but its fetch.
unfoldable pub inputs_of : Surroundings → FetchOutcome → Inputs
inputs_of x outcome = record {
  now = x.now;
  db_now = x.db_now;
  new_log_id = x.new_log_id;
  new_report_id = x.new_report_id;
  outcome = outcome;
}

-- The fetch of a `PlatformFetcher()`, with the configured number of attempts.
unfoldable pub fetch_for : String → Breakers → Surroundings → Breakers × Fetched
unfolding fetch
fetch_for platform bs x = fetch x.calls x.clock platform (max_attempts - 1) bs

-- `run_reconciliation` with its fetch, for a post on the platform.
unfoldable pub reconcile : String → Breakers × Session → Surroundings → Breakers × Session
unfolding fetch_for outcome_for inputs_of run_reconciliation
reconcile platform (bs, s) x =
    let (bs', fetched) = fetch_for platform bs x in
    (bs', run_reconciliation s (inputs_of x (outcome_for fetched)))

-- The reconciliations of one report one after the other, with the breakers that each one leaves.
unfoldable pub reconcile_all : String → Breakers × Session → List Surroundings → Breakers × Session
unfolding reconcile
reconcile_all platform state [] = state
reconcile_all platform state (x ∷ rest) = reconcile_all platform (reconcile platform state x) rest
