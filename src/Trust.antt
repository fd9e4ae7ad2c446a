-- ===== src/Trust.antt =====
-- Trust scores, of affiliate-reconciliation-backend/app/services/trust_scoring.py, and the queue
-- priorities that app/utils/priority.py draws from them. A score is in hundredths: every setting
-- is a whole number of hundredths, and so is every score that `users.trust_score`, a
-- Numeric(3, 2) column, holds.
pub mod Scores
pub mod Priorities
mod Examples
use affiliate_platform.Config.{
  min_score, max_score, reduced_frequency_threshold, increased_monitoring_threshold,
  manual_review_threshold,
}
use affiliate_platform.Prelude.{
  Bool, true, false, ℤ, pos, negsuc, ◌+ℤ◌, ◌-ℤ◌, leb_ℤ, min_ℤ, max_ℤ, if◌then◌else◌, ◌&&◌, not,
}

-- `TrustEvent` of app/models/db/enums.py.
pub data TrustEvent : Type 0 where
  perfect_match minor_discrepancy medium_discrepancy high_discrepancy : TrustEvent
  overclaim impossible_submission manual_adjust : TrustEvent

-- TRUST_SCORING["events"].get(event.value, 0.0)
unfoldable pub event_delta : TrustEvent → ℤ
event_delta perfect_match = pos 1
event_delta minor_discrepancy = negsuc 0
event_delta medium_discrepancy = negsuc 2
event_delta high_discrepancy = negsuc 4
event_delta overclaim = negsuc 9
event_delta impossible_submission = negsuc 14
event_delta manual_adjust = pos 0

-- The new score, and the delta that was applied after clamping.
unfoldable pub apply_trust_event : ℤ → TrustEvent → ℤ × ℤ
unfolding event_delta max_ℤ min_ℤ
apply_trust_event current event =
    let new_score = max_ℤ min_score (min_ℤ (current +ℤ event_delta event) max_score) in
    (new_score, new_score -ℤ current)

-- The names of the buckets.
pub data Bucket : Type 0 where
  high_trust normal low_trust critical : Bucket

unfoldable pub bucket_for_priority : ℤ → Bucket
bucket_for_priority score =
    if leb_ℤ reduced_frequency_threshold score
    then high_trust
    else if leb_ℤ increased_monitoring_threshold score
    then normal
    else if leb_ℤ manual_review_threshold score
    then low_trust
    else critical

-- The labels of the queue.
pub data Label : Type 0 where
  high normal low : Label

-- PRIORITY_MAP; every bucket has an entry, so that the default of `get` is never taken.
unfoldable pub priority_map : Bucket → Label
priority_map critical = high
priority_map low_trust = high
priority_map Bucket.normal = Label.normal
priority_map high_trust = low

abbrev is_high : Label → Bool
is_high high = true
is_high _ = false

unfoldable pub compute_priority : ℤ → Bool → Label
unfolding bucket_for_priority priority_map
compute_priority trust_score has_suspicion_flags =
    let label = priority_map (bucket_for_priority trust_score) in
    if has_suspicion_flags && not (is_high label) then high else label
