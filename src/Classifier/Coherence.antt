-- ===== src/Classifier/Coherence.antt =====
-- What every result of the classifier satisfies, with full, partial or no platform data
-- (affiliate-reconciliation-backend/app/services/discrepancy_classifier.py).
use affiliate_platform.Prelude.{
  ℕ, ◌+◌, ◌*◌, ◌<◌, String, ◌≡◌, refl, ◌↔◌, inl, inr, Bool, true, false, ◌||◌, Option, none, some,
  List, ◌++◌, arith, Bool-cases, is_some, ℤ, Ratio,
}
use affiliate_platform.Enums.{
  ReconciliationStatus, matched, discrepancy_low, discrepancy_medium, discrepancy_high,
  affiliate_overclaimed, missing_platform_data, incomplete_platform_data,
}
use affiliate_platform.Trust.{
  TrustEvent, perfect_match, minor_discrepancy, medium_discrepancy, overclaim,
}
use affiliate_platform.Classifier.{
  compare_metrics, determine_status, Claim, Reported, classify, provided, absent, verdict, Verdict,
}

-- How many metrics the platform reports, and the names of the others.
abbrev pub reported_count : Reported → ℕ
reported_count p = provided p.views + provided p.clicks + provided p.conversions

abbrev pub missing_names : Reported → List String
missing_names p =
    absent p.views "views" ++ (absent p.clicks "clicks" ++ absent p.conversions "conversions")

-- The trust event that belongs to a status: none where the data do not allow a judgement.
unfoldable pub event_of : ReconciliationStatus → Option TrustEvent
event_of matched = some perfect_match
event_of discrepancy_low = some minor_discrepancy
event_of discrepancy_medium = some medium_discrepancy
event_of discrepancy_high = some TrustEvent.high_discrepancy
event_of affiliate_overclaimed = some overclaim
event_of _ = none

-- The status of data that are not full says how much of them there is.
abbrev Coverage : ℕ → Verdict → Type 0
Coverage n v =
    ((v.status ≡ missing_platform_data) ↔ (n ≡ 0))
    × ((v.status ≡ incomplete_platform_data) ↔ ((0 < n) × (n < 3)))
    × (v.trust_event ≡ event_of v.status)

verdict-Coverage :
    (n : ℕ) (over crit : Bool) (m : Option Ratio) → Coverage n (verdict n over crit m)
unfolding verdict event_of
verdict-Coverage n over crit none =
    ((λ e. ground arith, λ e. ground arith), (λ e. ground arith, λ e. ground arith), ground arith)
verdict-Coverage n over crit (some m) =
    ((λ e. ground arith, λ e. ground arith), (λ e. ground arith, λ e. ground arith), ground arith)

determine_status-Coverage :
    (n : ℕ) (dv dc dk : ℤ) (pv pc pk m : Option Ratio)
    → Coverage n (determine_status n dv dc dk pv pc pk m)
unfolding determine_status
determine_status-Coverage n dv dc dk pv pc pk m = verdict-Coverage n _ _ m

covered :
    (c : Claim) (p : Reported) (elapsed : ℕ) (partial_missing : List String)
    → let r = compare_metrics c p elapsed partial_missing in
      Coverage (reported_count p) (record {
        status = r.status;
        trust_event = r.trust_event;
        discrepancy_level = r.discrepancy_level;
      })
unfolding compare_metrics
covered c p elapsed partial_missing = determine_status-Coverage (reported_count p) _ _ _ _ _ _ _

count_zero :
    (p : Reported)
    → (is_some p.views || is_some p.clicks || is_some p.conversions) ≡ false
    → reported_count p ≡ 0
count_zero p h = ground arith

-- The status is missing exactly if the platform reports nothing and incomplete exactly if it reports
-- some metrics and not all; the trust event is the one of the status, so incomplete data never move
-- a trust score; the confidence is the share of the metrics reported.
pub classify_coverage :
    (c : Claim) (p : Reported) (elapsed : ℕ) (partial_missing : List String)
    → let r = classify c p elapsed partial_missing in
      let n = reported_count p in
      ((r.status ≡ missing_platform_data) ↔ (n ≡ 0))
      × ((r.status ≡ incomplete_platform_data) ↔ ((0 < n) × (n < 3)))
      × (r.trust_event ≡ event_of r.status)
      × ((confidence : Ratio) × (r.confidence_ratio ≡ some confidence)
          × (3 * confidence.num ≡ n * confidence.den))
unfolding classify event_of
classify_coverage c p elapsed partial_missing =
    elim (Bool-cases (is_some p.views || is_some p.clicks || is_some p.conversions)) [
      | inl some_data ↦
          let (nothing, partly, event) = covered c p elapsed partial_missing in
          rw some_data (
            nothing,
            partly,
            event,
            (record { num = reported_count p; den = 3 }, refl, omega arith),
          )
      | inr no_data ↦
          let zero_count = count_zero p no_data in
          rw no_data (
            (λ _. zero_count, λ _. refl),
            (λ e. cc, λ h. absurd (omega arith)),
            refl,
            (record { num = 0; den = 1 }, refl, omega arith),
          )
    ]

reported_some :
    (p : Reported)
    → 0 < reported_count p
    → (is_some p.views || is_some p.clicks || is_some p.conversions) ≡ true
reported_some p h = ground arith

-- If the platform reports at least one metric, the names of the missing ones are added to those
-- that the caller passed in, which are kept: a caller that passes the same names in has each of
-- them twice in the result.
pub missing_fields_appended :
    (c : Claim) (p : Reported) (elapsed : ℕ) (partial_missing : List String)
    → 0 < reported_count p
    → (classify c p elapsed partial_missing).missing_fields ≡ partial_missing ++ missing_names p
unfolding classify
missing_fields_appended c p elapsed partial_missing h = rw (reported_some p h)
