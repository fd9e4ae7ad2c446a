-- ===== src/Classifier.antt =====
-- The discrepancy classifier of affiliate-reconciliation-backend/app/services/discrepancy_classifier.py.
-- Percentages are exact fractions; elapsed time is in microseconds.
pub mod Thresholds
pub mod Verdicts
pub mod Coherence
pub mod Growth
mod Examples
use affiliate_platform.Config.{
  base_tolerance_pct, low_max, medium_max, overclaim_threshold_pct, overclaim_critical_pct,
  growth_per_hour_pct, growth_cap_hours,
}
use affiliate_platform.Prelude.{
  ℕ, ◌+◌, ◌-◌, ◌*◌, String, Bool, false, not, ◌&&◌, ◌||◌, Option, none, some, List, [], ◌∷◌, ◌++◌,
  map, ltb, leb, ◌==◌, if◌then◌else◌, is_some, get_or_else, All, same, ℤ, pos, sub_ℕ, ltb_ℤ, Ratio,
  max_ratio,
}
use mathlib.Core.Option
use affiliate_platform.Enums.{
  ReconciliationStatus, matched, discrepancy_low, discrepancy_medium, discrepancy_high,
  affiliate_overclaimed, missing_platform_data, incomplete_platform_data, DiscrepancyLevel,
}
use affiliate_platform.Trust.{
  TrustEvent, perfect_match, minor_discrepancy, medium_discrepancy, overclaim,
}
use affiliate_platform.Metrics.{pct_diff, apply_growth_allowance}

-- `ClassificationResult`.
pub record ClassificationResult : Type 0 where
  pub status : ReconciliationStatus
  pub trust_event : Option TrustEvent
  pub views_discrepancy : ℤ
  pub clicks_discrepancy : ℤ
  pub conversions_discrepancy : ℤ
  pub views_diff_pct : Option Ratio
  pub clicks_diff_pct : Option Ratio
  pub conversions_diff_pct : Option Ratio
  pub max_discrepancy_pct : Option Ratio
  pub discrepancy_level : Option DiscrepancyLevel
  pub missing_fields : List String
  pub confidence_ratio : Option Ratio

-- Views, clicks and conversions, as an affiliate claims them.
pub record Claim : Type 0 where
  pub views : ℕ
  pub clicks : ℕ
  pub conversions : ℕ

-- The same as a platform reports them, each perhaps None.
pub record Reported : Type 0 where
  pub views : Option ℕ
  pub clicks : Option ℕ
  pub conversions : Option ℕ

-- `pct >= threshold` and `pct <= threshold`, for a threshold in hundredths.
unfoldable pub at_least : Ratio → ℕ → Bool
at_least r t = leb (t * r.den) (100 * r.num)

unfoldable pub at_most : Ratio → ℕ → Bool
at_most r t = leb (100 * r.num) (t * r.den)

-- One metric of the overclaim conditions: above the platform, and by at least the threshold.
unfoldable pub exceeds : ℤ → Option Ratio → ℕ → Bool
unfolding at_least
exceeds discrepancy none threshold = false
exceeds discrepancy (some pct) threshold = ltb_ℤ (pos 0) discrepancy && at_least pct threshold

max_from : Ratio → List (Option Ratio) → Ratio
max_from d [] = d
max_from d (none ∷ ds) = max_from d ds
max_from d (some e ∷ ds) = max_from (max_ratio d e) ds

-- `max(diffs) if diffs else None`, over the differences that are there.
unfoldable pub max_diff : List (Option Ratio) → Option Ratio
unfolding max_from
max_diff [] = none
max_diff (none ∷ ds) = max_diff ds
max_diff (some d ∷ ds) = some (max_from d ds)

-- `1 if x is not None else 0`.
abbrev pub provided : Option ℕ → ℕ
provided none = 0
provided (some _) = 1

-- The names that `missing.append` adds.
abbrev pub absent : Option ℕ → String → List String
absent none name = name ∷ []
absent (some _) name = []

-- The platform's value with the growth allowance of the settings.
unfoldable pub adjust : ℕ → ℕ → ℕ
adjust elapsed value = apply_growth_allowance value elapsed growth_per_hour_pct growth_cap_hours

-- `claimed - (adj or 0)`.
abbrev pub discrepancy : ℕ → Option ℕ → ℤ
discrepancy claimed adjusted = sub_ℕ claimed (get_or_else adjusted 0)

-- `pct_diff(claimed, adj) if adj is not None else None`.
abbrev pub diff_pct : ℕ → Option ℕ → Option Ratio
diff_pct claimed none = none
diff_pct claimed (some adjusted) = some (pct_diff claimed adjusted)

-- What the branches under "Determine status" decide.
pub record Verdict : Type 0 where
  pub status : ReconciliationStatus
  pub trust_event : Option TrustEvent
  pub discrepancy_level : Option DiscrepancyLevel

-- The branch with full data: overclaim first, then the tolerance and the tiers of the greatest
-- difference.
unfoldable pub full_data_verdict : Bool → Bool → Option Ratio → Verdict
full_data_verdict overclaim_condition critical_condition none = record {
  status = matched;
  trust_event = some perfect_match;
  discrepancy_level = none;
}
full_data_verdict overclaim_condition critical_condition (some pct) =
    if overclaim_condition
    then record {
      status = affiliate_overclaimed;
      trust_event = some overclaim;
      discrepancy_level =
          some (if critical_condition then DiscrepancyLevel.critical else DiscrepancyLevel.high);
    }
    else if at_most pct base_tolerance_pct
    then record { status = matched; trust_event = some perfect_match; discrepancy_level = none }
    else if at_most pct low_max
    then record {
      status = discrepancy_low;
      trust_event = some minor_discrepancy;
      discrepancy_level = some DiscrepancyLevel.low;
    }
    else if at_most pct medium_max
    then record {
      status = discrepancy_medium;
      trust_event = some medium_discrepancy;
      discrepancy_level = some DiscrepancyLevel.medium;
    }
    else record {
      status = discrepancy_high;
      trust_event = some TrustEvent.high_discrepancy;
      discrepancy_level = some DiscrepancyLevel.high;
    }

-- `provided_metrics` and the branch that it chooses. The first case is never taken: `classify`
-- has returned before.
unfoldable pub verdict : ℕ → Bool → Bool → Option Ratio → Verdict
unfolding full_data_verdict
verdict provided_metrics overclaim_condition critical_condition max_pct =
    if provided_metrics == 0
    then record { status = missing_platform_data; trust_event = none; discrepancy_level = none }
    else if ltb provided_metrics 3
    then record { status = incomplete_platform_data; trust_event = none; discrepancy_level = none }
    else full_data_verdict overclaim_condition critical_condition max_pct

-- The block "Determine status", from the discrepancies, the percentages and their greatest.
unfoldable pub determine_status :
    ℕ → ℤ → ℤ → ℤ → Option Ratio → Option Ratio → Option Ratio → Option Ratio → Verdict
unfolding exceeds verdict
determine_status provided_metrics dv dc dk pv pc pk max_pct =
    let above = λ (t : ℕ). exceeds dv pv t || exceeds dc pc t || exceeds dk pk t in
    verdict provided_metrics (above overclaim_threshold_pct) (above overclaim_critical_pct) max_pct

-- The early return when the platform reports nothing.
abbrev pub fully_missing : ClassificationResult
fully_missing = record {
  status = missing_platform_data;
  trust_event = none;
  views_discrepancy = pos 0;
  clicks_discrepancy = pos 0;
  conversions_discrepancy = pos 0;
  views_diff_pct = none;
  clicks_diff_pct = none;
  conversions_diff_pct = none;
  max_discrepancy_pct = none;
  discrepancy_level = none;
  missing_fields = "views" ∷ "clicks" ∷ "conversions" ∷ [];
  confidence_ratio = some (record { num = 0; den = 1 });
}

-- All of `classify` below the early return.
unfoldable pub compare_metrics : Claim → Reported → ℕ → List String → ClassificationResult
unfolding max_diff adjust
compare_metrics c p elapsed partial_missing =
    let adj_views = Option.map (adjust elapsed) p.views in
    let adj_clicks = Option.map (adjust elapsed) p.clicks in
    let adj_conversions = Option.map (adjust elapsed) p.conversions in
    let dv = discrepancy c.views adj_views in
    let dc = discrepancy c.clicks adj_clicks in
    let dk = discrepancy c.conversions adj_conversions in
    let pv = diff_pct c.views adj_views in
    let pc = diff_pct c.clicks adj_clicks in
    let pk = diff_pct c.conversions adj_conversions in
    let provided_metrics = provided p.views + provided p.clicks + provided p.conversions in
    let max_pct = max_diff (pv ∷ pc ∷ pk ∷ []) in
    let v = determine_status provided_metrics dv dc dk pv pc pk max_pct in
    record {
      status = v.status;
      trust_event = v.trust_event;
      views_discrepancy = dv;
      clicks_discrepancy = dc;
      conversions_discrepancy = dk;
      views_diff_pct = pv;
      clicks_diff_pct = pc;
      conversions_diff_pct = pk;
      max_discrepancy_pct = max_pct;
      discrepancy_level = v.discrepancy_level;
      missing_fields =
          partial_missing
          ++ (absent p.views "views"
              ++ (absent p.clicks "clicks" ++ absent p.conversions "conversions"));
      confidence_ratio = some (record { num = provided_metrics; den = 3 });
    }

unfoldable pub classify : Claim → Reported → ℕ → List String → ClassificationResult
unfolding compare_metrics
classify c p elapsed partial_missing =
    if is_some p.views || is_some p.clicks || is_some p.conversions
    then compare_metrics c p elapsed partial_missing
    else fully_missing
