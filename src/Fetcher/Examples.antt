-- ===== src/Fetcher/Examples.antt =====
-- Fetches on small inputs.
use affiliate_platform.Config.{second}
use affiliate_platform.Prelude.{
  ℕ, ◌*◌, ◌≡◌, refl, ◌⊎◌, true, false, none, some, [], ◌∷◌, ◌==◌, if◌then◌else◌, lookup,
}
use affiliate_platform.Classifier.{Reported}
use affiliate_platform.Breaker.{allow_call}
use affiliate_platform.Fetcher.{
  Call, call_adapter, raised, auth_error, data_of, failed, fetch_error, gave_up, denied, fetch,
}
use affiliate_platform.Fetcher.Attempts.{LoopMeans, fetch_outcome}

abbrev metrics : Reported
metrics = record { views = some 1000; clicks = none; conversions = some 10 }

-- The first call times out, and the second one answers.
abbrev second_answers : ℕ → Call
second_answers n = if n == 1 then failed fetch_error "timeout" else data_of metrics

-- An attempt every second.
abbrev each_second : ℕ → ℕ
each_second n = n * second

partial_answer : (fetch second_answers each_second "tiktok" 2 []).1 ≡ record {
  platform_metrics = some metrics;
  partial_missing = "clicks" ∷ [];
  attempts = 2;
  cause = none;
  was_rate_limited = false;
}
unfolding fetch allow_call lookup
partial_answer = refl

fetch_outcome_example :
    let (_, allowed, reason) = allow_call [] (each_second 0) "tiktok" in
    let out = (fetch second_answers each_second "tiktok" 2 []).1 in
    ((allowed ≡ false) × (out ≡ gave_up 0 (denied reason) false))
    ⊎ ((allowed ≡ true) × LoopMeans second_answers 0 2 out)
fetch_outcome_example = fetch_outcome second_answers each_second "tiktok" 2 []

-- An exception is sorted by its message, which is kept.
sorted_exception :
    call_adapter "tiktok" (raised "HTTP 403: rate exceeded")
    ≡ failed auth_error "HTTP 403: rate exceeded"
unfolding call_adapter
sorted_exception = refl
