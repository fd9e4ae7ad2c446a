-- ===== src/Quality.antt =====
-- The data quality rules of affiliate-reconciliation-backend/app/services/data_quality_validators.py,
-- on exact fractions. The rounded values and the messages of a flag are left out.
pub mod Rules
pub mod Complete
mod Examples
use affiliate_platform.Config.{
  max_ctr_pct, max_cvr_pct, max_growth, evidence_required_views, monotonic_divisor,
  min_views_for_ctr, min_clicks_for_cvr,
}
use affiliate_platform.Prelude.{
  ℕ, zero, ◌+◌, ◌-◌, ◌*◌, ◌/◌, Bool, not, ◌&&◌, Option, none, some, List, [], ◌∷◌, ◌++◌, ltb, leb,
  ◌==◌, if◌then◌else◌, Ratio,
}
use affiliate_platform.Classifier.{Claim}

pub data Metric : Type 0 where
  views clicks conversions : Metric

-- The keys of the flags; `{name}_decrease` and `{name}_spike` carry the metric.
pub data Key : Type 0 where
  high_ctr high_cvr metric_order_violation missing_evidence : Key
  decrease spike : Metric → Key

pub data Severity : Type 0 where
  low medium high : Severity

pub record Flag : Type 0 where
  pub key : Key
  pub severity : Severity

-- `_ratio`.
unfoldable pub ratio : ℕ → ℕ → Ratio
ratio n d = if d == 0 then record { num = 0; den = 1 } else record { num = n; den = d }

-- `r > threshold`, and `_severity_from_excess` of r / threshold.
unfoldable pub exceeds_pct : Ratio → ℕ → Bool
exceeds_pct r pct = ltb (pct * r.den) (100 * r.num)

unfoldable pub severity_from_excess : Ratio → ℕ → Severity
severity_from_excess r pct =
    if leb (3 * pct * r.den) (100 * r.num)
    then high
    else if leb (3 * pct * r.den) (200 * r.num)
    then medium
    else low

-- The rules: a list of at most one flag each.
unfoldable pub rule_ratio : Key → ℕ → ℕ → ℕ → ℕ → List Flag
unfolding ratio exceeds_pct severity_from_excess
rule_ratio key n d min_base pct =
    if ltb d min_base
    then []
    else if exceeds_pct (ratio n d) pct
    then record { key = key; severity = severity_from_excess (ratio n d) pct } ∷ []
    else []

unfoldable pub rule_metric_order : Claim → List Flag
rule_metric_order c =
    if leb c.clicks c.views && leb c.conversions c.clicks
    then []
    else record { key = metric_order_violation; severity = medium } ∷ []

unfoldable pub rule_evidence_required : ℕ → Bool → List Flag
rule_evidence_required claimed_views has_evidence =
    if leb evidence_required_views claimed_views && not has_evidence
    then record { key = missing_evidence; severity = medium } ∷ []
    else []

-- `check` of `_rule_non_monotonic`.
unfoldable pub check_decrease : Metric → ℕ → ℕ → List Flag
check_decrease name new old =
    if old == 0
    then []
    else if ltb (new + old / monotonic_divisor) old
    then record { key = decrease name; severity = low } ∷ []
    else []

-- `maybe` of `_rule_spike`: growth from zero is infinite and not reported.
unfoldable pub check_spike : Metric → ℕ → ℕ → List Flag
check_spike name new old =
    if old == 0
    then []
    else if ltb (max_growth * old) (new - old)
    then record { key = spike name; severity = high } ∷ []
    else []

-- A rule on the three metrics against the previous report, if there is one.
unfoldable pub each_metric : (Metric → ℕ → ℕ → List Flag) → Option Claim → Claim → List Flag
each_metric rule none c = []
each_metric rule (some p) c =
    rule views c.views p.views
    ++ (rule clicks c.clicks p.clicks ++ rule conversions c.conversions p.conversions)

-- `evaluate_submission`, with the latest report of the post.
unfoldable pub evaluate_submission : Option Claim → Claim → Bool → List Flag
unfolding rule_ratio rule_metric_order rule_evidence_required each_metric check_decrease check_spike
evaluate_submission previous c has_evidence =
    rule_ratio high_ctr c.clicks c.views min_views_for_ctr max_ctr_pct
    ++ (rule_ratio high_cvr c.conversions c.clicks min_clicks_for_cvr max_cvr_pct
        ++ (rule_metric_order c
            ++ (rule_evidence_required c.views has_evidence
                ++ (each_metric check_decrease previous c ++ each_metric check_spike previous c))))
