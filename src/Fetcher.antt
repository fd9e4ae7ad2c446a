-- ===== src/Fetcher.antt =====
-- The fetch of a post's metrics, affiliate-reconciliation-backend/app/services/platform_fetcher.py. The
-- integrations are parameters: what each attempt meets, as an `Adapter` sorted by `_call_adapter` or as
-- its answer. The sleep between two attempts shows only in the clock.
pub mod Attempts
pub mod Adapters
mod Examples
use affiliate_platform.Prelude.{
  followed_by, lower, codes, Text, contains, ℕ, zero, suc, ◌+◌, String, Bool, true, false, not,
  ◌||◌, Option, none, some, List, [], ◌∷◌, ◌++◌, if◌then◌else◌,
}
use affiliate_platform.Classifier.{Reported, absent}
use affiliate_platform.Breaker.{Breakers, Reason, allow_call, record_success, record_failure}

-- The error codes of `_call_adapter`.
pub data ErrorCode : Type 0 where
  adapter_missing invalid_adapter_return rate_limited auth_error fetch_error : ErrorCode

-- What `_call_adapter` answers: the metrics, of which some may be missing or None, or an error.
pub data Call : Type 0 where
  data_of : Reported → Call
  failed : ErrorCode → String → Call

-- What `_call_adapter` meets: a module without `fetch_post_metrics`, an answer that is no dict, a
-- dict, or an exception with its message (a module that cannot be imported, too).
pub data Adapter : Type 0 where
  without_function not_a_dict : Adapter
  returned : Reported → Adapter
  raised : String → Adapter

-- The codes by which an exception is sorted.
unfoldable pub code_of : Text → ErrorCode
unfolding contains
code_of message =
    if contains (codes "rate limit") (lower message)
    then rate_limited
    else if contains (codes "auth") (lower message)
        || (contains (codes "401") message || contains (codes "403") message)
    then auth_error
    else fetch_error

-- `_call_adapter` for a platform.
unfoldable pub call_adapter : String → Adapter → Call
unfolding code_of
call_adapter platform without_function =
    failed adapter_missing (followed_by "Adapter missing fetch_post_metrics for " platform)
call_adapter platform not_a_dict = failed invalid_adapter_return "Adapter did not return dict"
call_adapter platform (returned metrics) = data_of metrics
call_adapter platform (raised message) = failed (code_of (codes message)) message

-- Why there are no metrics: the breaker denied the call, or the last attempt failed.
pub data Cause : Type 0 where
  denied : Option Reason → Cause
  call_failed : ErrorCode → String → Cause

-- `FetchOutcome`; `success` is that there are metrics, and the cause carries the error code and the
-- message.
pub record Fetched : Type 0 where
  pub platform_metrics : Option Reported
  pub partial_missing : List String
  pub attempts : ℕ
  pub cause : Option Cause
  pub was_rate_limited : Bool

-- The names of the metrics that are missing or None.
unfoldable pub missing_of : Reported → List String
missing_of r =
    absent r.views "views" ++ absent r.clicks "clicks" ++ absent r.conversions "conversions"

unfoldable pub succeeded : Reported → ℕ → Fetched
unfolding missing_of
succeeded r attempts = record {
  platform_metrics = some r;
  partial_missing = missing_of r;
  attempts = attempts;
  cause = none;
  was_rate_limited = false;
}

unfoldable pub gave_up : ℕ → Cause → Bool → Fetched
gave_up attempts cause limited = record {
  platform_metrics = none;
  partial_missing = "views" ∷ "clicks" ∷ "conversions" ∷ [];
  attempts = attempts;
  cause = some cause;
  was_rate_limited = limited;
}

abbrev pub is_rate_limited : ErrorCode → Bool
is_rate_limited rate_limited = true
is_rate_limited _ = false

abbrev pub is_auth_error : ErrorCode → Bool
is_auth_error auth_error = true
is_auth_error _ = false

-- No attempt follows: the call has succeeded, or it was refused for its credentials.
abbrev pub is_final : Call → Bool
is_final (data_of r) = true
is_final (failed code message) = is_auth_error code

abbrev pub limited_after : Bool → Call → Bool
limited_after limited (data_of r) = limited
limited_after limited (failed code message) = is_rate_limited code || limited

-- `record_success` or `record_failure`.
unfoldable pub record_call : String → ℕ → Call → Breakers → Breakers
record_call platform now (data_of r) bs = record_success bs platform
record_call platform now (failed code message) bs = record_failure bs now platform

-- The outcome if this call is the last one.
unfoldable pub outcome_of : Call → ℕ → Bool → Fetched
unfolding succeeded gave_up
outcome_of (data_of r) attempts limited = succeeded r attempts
outcome_of (failed code message) attempts limited =
    gave_up attempts (call_failed code message) limited

-- The calls and the clock, by the number of the attempt; the clock's 0 is the check of the breaker.
module _ (calls : ℕ → Call) (clock : ℕ → ℕ) (platform : String) where
  -- The loop: one attempt, after so many others, and then as many as are left.
  unfoldable pub fetch_loop : ℕ → ℕ → Bool → Breakers → Breakers × Fetched
  unfolding record_call outcome_of
  fetch_loop zero attempts limited bs =
      let n = attempts + 1 in
      let c = calls n in
      (record_call platform (clock n) c bs, outcome_of c n (limited_after limited c))
  fetch_loop (suc left) attempts limited bs =
      let n = attempts + 1 in
      let c = calls n in
      let bs' = record_call platform (clock n) c bs in
      let next = fetch_loop left n (limited_after limited c) bs' in
      if is_final c then (bs', outcome_of c n (limited_after limited c)) else next

  -- `fetch`, with max_attempts one more than the number given.
  unfoldable pub fetch : ℕ → Breakers → Breakers × Fetched
  unfolding fetch_loop gave_up
  fetch further bs =
      let (bs', allowed, reason) = allow_call bs (clock 0) platform in
      if allowed then fetch_loop further 0 false bs' else (bs', gave_up 0 (denied reason) false)
