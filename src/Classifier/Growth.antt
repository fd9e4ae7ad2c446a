-- ===== src/Classifier/Growth.antt =====
-- The growth allowance in the classifier: it protects honest claims, and time never turns a claim
-- into an overclaim (affiliate-reconciliation-backend/app/services/discrepancy_classifier.py).
use affiliate_platform.Prelude.{
  mul_mono, ℕ, ◌+◌, ◌-◌, ◌*◌, ◌≤◌, ◌<◌, String, ◌≡◌, refl, ◌≢◌, List, arith,
}
use affiliate_platform.Config.{growth_cap_hours, hour, medium_max, overclaim_threshold_pct}
use affiliate_platform.Enums.{
  ReconciliationStatus, affiliate_overclaimed, matched, discrepancy_low, discrepancy_medium,
  discrepancy_high, missing_platform_data, incomplete_platform_data, unverifiable,
  skipped_suspended,
}
use affiliate_platform.Metrics.Growth.{
  apply_growth_allowance_late, apply_growth_allowance_bounds, apply_growth_allowance_mono,
}
use affiliate_platform.Classifier.{Claim, classify, adjust}
use affiliate_platform.Classifier.Thresholds.{Overclaims}
use affiliate_platform.Classifier.Verdicts.{
  adjusted, StatusMeans, classify_meaning, full, overclaimed_iff,
}

adjust-le : (elapsed value : ℕ) → value ≤ adjust elapsed value
unfolding adjust
adjust-le elapsed value = (apply_growth_allowance_bounds value elapsed).0

adjust_mono : (s t value : ℕ) → s ≤ t → adjust s value ≤ adjust t value
unfolding adjust
adjust_mono s t value h = apply_growth_allowance_mono value value s t (omega arith) h

-- An affiliate who claims no more than what the platform reports is never found to overclaim.
pub honest_not_overclaimed :
    (c p : Claim) (elapsed : ℕ) (partial_missing : List String)
    → c.views ≤ p.views
    → c.clicks ≤ p.clicks
    → c.conversions ≤ p.conversions
    → (classify c (full p) elapsed partial_missing).status ≢ affiliate_overclaimed
honest_not_overclaimed c p elapsed partial_missing hv hk ho e = ground (
  arith,
  (overclaimed_iff c p elapsed partial_missing).0 e,
  adjust-le elapsed p.views,
  adjust-le elapsed p.clicks,
  adjust-le elapsed p.conversions,
)

Overclaims-antitone :
    (t claimed v w : ℕ) → v ≤ w → t ≤ 100 → Overclaims t claimed w → Overclaims t claimed v
Overclaims-antitone t claimed v w h b o = (omega arith, omega (arith, o, mul_mono v w t h))

-- A claim that is an overclaim at some time is one at every earlier time: elapsed time only ever
-- excuses.
pub overclaimed_earlier :
    (c p : Claim) (s t : ℕ) (partial_missing : List String)
    → s ≤ t
    → (classify c (full p) t partial_missing).status ≡ affiliate_overclaimed
    → (classify c (full p) s partial_missing).status ≡ affiliate_overclaimed
overclaimed_earlier c p s t partial_missing h e =
    let limit : overclaim_threshold_pct ≤ 100 = omega arith in
    ground (
      arith,
      (overclaimed_iff c p t partial_missing).0 e,
      (overclaimed_iff c p s partial_missing).1,
      Overclaims-antitone overclaim_threshold_pct c.views _ _ (adjust_mono s t p.views h) limit,
      Overclaims-antitone overclaim_threshold_pct c.clicks _ _ (adjust_mono s t p.clicks h) limit,
      Overclaims-antitone overclaim_threshold_pct c.conversions _ _
          (adjust_mono s t p.conversions h) limit,
    )

-- A day's growth is the most that the allowance gives.
adjust-late :
    (elapsed value : ℕ)
    → growth_cap_hours * hour ≤ elapsed
    → 34 * value ≤ 10 * adjust elapsed value + 5
unfolding adjust
adjust-late elapsed value h = apply_growth_allowance_late value elapsed h

-- A status that is no overclaim, of a claim far below the platform in views, is the highest tier.
far_is_high :
    (status : ReconciliationStatus) (c q : Claim)
    → c.views ≤ q.views
    → medium_max * q.views < 100 * (q.views - c.views)
    → status ≢ affiliate_overclaimed
    → StatusMeans status c q
    → status ≡ discrepancy_high
far_is_high affiliate_overclaimed c q le far ne m = absurd (ne refl)
far_is_high matched c q le far ne m = absurd (ground (arith, m.1.0))
far_is_high discrepancy_low c q le far ne m = absurd (ground (arith, m.2.0))
far_is_high discrepancy_medium c q le far ne m = absurd (ground (arith, m.2.0))
far_is_high discrepancy_high c q le far ne m = refl
far_is_high missing_platform_data c q le far ne m = absurd m
far_is_high incomplete_platform_data c q le far ne m = absurd m
far_is_high unverifiable c q le far ne m = absurd m
far_is_high skipped_suspended c q le far ne m = absurd m

-- A claim that equals what the platform reports is nevertheless a high discrepancy a day after it
-- was submitted, if it has any views: the allowance raises the platform's value above the claim.
pub exact_claim_high :
    (c : Claim) (elapsed : ℕ) (partial_missing : List String)
    → 0 < c.views
    → growth_cap_hours * hour ≤ elapsed
    → (classify c (full c) elapsed partial_missing).status ≡ discrepancy_high
exact_claim_high c elapsed partial_missing views late =
    let q = adjusted elapsed c in
    let means = (classify_meaning c c elapsed partial_missing).0 in
    let far = adjust-late elapsed c.views late in
    let honest =
      honest_not_overclaimed c c elapsed partial_missing (omega arith) (omega arith)
        (omega arith) in
    far_is_high (classify c (full c) elapsed partial_missing).status c q (adjust-le elapsed c.views)
      (omega arith) honest means
