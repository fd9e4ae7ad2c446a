-- ===== src/Quality/Rules.antt =====
-- What the flags of a submission say of it
-- (affiliate-reconciliation-backend/app/services/data_quality_validators.py).
use affiliate_platform.Prelude.{
  ℕ, ◌+◌, ◌-◌, ◌*◌, ◌/◌, ◌≤◌, ◌<◌, ◌≡◌, refl, ◌↔◌, ◌⊎◌, inl, inr, Bool, false, not, ◌&&◌, Option,
  none, some, List, ◌++◌, arith, ltb, leb, ◌==◌, ltb→lt, leb→le, not_leb, Bool-cases, All,
  All-append,
}
use affiliate_platform.Classifier.{Claim}
use affiliate_platform.Quality.{
  Metric, views, clicks, conversions, Key, high_ctr, high_cvr, metric_order_violation,
  missing_evidence, decrease, spike, Severity, low, medium, high, Flag, ratio, exceeds_pct,
  severity_from_excess, rule_ratio, rule_metric_order, rule_evidence_required, check_decrease,
  check_spike, each_metric, evaluate_submission,
}

-- A metric of a claim.
abbrev pub value_of : Metric → Claim → ℕ
value_of views c = c.views
value_of clicks c = c.clicks
value_of conversions c = c.conversions

-- What is measured for a metric against the previous report, if there is one.
abbrev pub Against : (ℕ → ℕ → Type 0) → Metric → Option Claim → Claim → Type 0
Against P name none c = ⊥
Against P name (some p) c = P (value_of name c) (value_of name p)

-- n is more than so many hundredths of d, which is at least the base.
abbrev pub IsHigh : ℕ → ℕ → ℕ → ℕ → Type 0
IsHigh n d min_base pct = (min_base ≤ d) × (pct * d < 100 * n)

-- What a flag says: a ratio above its limit, with its severity by how far; metrics out of order;
-- many views without evidence; a metric that fell by more than a hundredth; one that grew more than
-- sixfold.
abbrev pub KeyMeans : Option Claim → Claim → Bool → Key → Severity → Type 0
KeyMeans previous c has_evidence high_ctr s =
    IsHigh c.clicks c.views 100 35 × ((s ≡ high) ↔ (105 * c.views ≤ 100 * c.clicks))
KeyMeans previous c has_evidence high_cvr s =
    IsHigh c.conversions c.clicks 20 60 × ((s ≡ high) ↔ (180 * c.clicks ≤ 100 * c.conversions))
KeyMeans previous c has_evidence metric_order_violation s =
    (c.views < c.clicks) ⊎ (c.clicks < c.conversions)
KeyMeans previous c has_evidence missing_evidence s = (50000 ≤ c.views) × (has_evidence ≡ false)
KeyMeans previous c has_evidence (decrease name) s =
    Against (λ new old. new + old / 100 < old) name previous c
KeyMeans previous c has_evidence (spike name) s =
    Against (λ new old. (0 < old) × (6 * old < new)) name previous c

abbrev pub FlagMeans : Option Claim → Claim → Bool → Flag → Type 0
FlagMeans previous c has_evidence f = KeyMeans previous c has_evidence f.key f.severity

severity_iff :
    (n d pct : ℕ)
    → (severity_from_excess (record { num = n; den = d }) pct ≡ high) ↔ (3 * pct * d ≤ 100 * n)
unfolding severity_from_excess
severity_iff n d pct = elim (Bool-cases (leb (3 * pct * d) (100 * n))) [
  | inl e ↦ rw e (λ _. leb→le _ _ e, λ _. refl)
  | inr e ↦ rw e (
    λ h. elim (Bool-cases (leb (3 * pct * d) (200 * n))) [
      | inl f ↦ let k : medium ≡ high = rw f at h in cc
      | inr f ↦ let k : low ≡ high = rw f at h in cc
    ],
    λ h. absurd (omega (arith, not_leb _ _ e)),
  )
]

-- A ratio rule raises a flag only where the ratio is high.
ratio_meant :
    (key : Key) (n d min_base pct : ℕ) (P : Flag → Type 0)
    → 0 < min_base
    → (IsHigh n d min_base pct
        → P (record {
          key = key;
          severity = severity_from_excess (record { num = n; den = d }) pct;
        }))
    → All P (rule_ratio key n d min_base pct)
unfolding rule_ratio ratio exceeds_pct
ratio_meant key n d min_base pct P positive h = elim (Bool-cases (ltb d min_base)) [
  | inl e ↦ rw e tt
  | inr e ↦
      let nonzero : (d == 0) ≡ false = ground (arith, e) in
      rw (e, nonzero)
        (elim (Bool-cases (ltb (pct * d) (100 * n))) [
          | inl f ↦ rw f (h (ground (arith, e), ltb→lt _ _ f), tt)
          | inr f ↦ rw f tt
        ])
]

module _ (previous : Option Claim) (c : Claim) (has_evidence : Bool) where
  abbrev Meant : List Flag → Type 0
  Meant l = All (FlagMeans previous c has_evidence) l

  evidence-Meant : Meant (rule_evidence_required c.views has_evidence)
  unfolding rule_evidence_required
  evidence-Meant = elim (Bool-cases (leb 50000 c.views && not has_evidence)) [
    | inl e ↦ rw e (ground (arith, e), tt)
    | inr e ↦ rw e tt
  ]

  order-Meant : Meant (rule_metric_order c)
  unfolding rule_metric_order
  order-Meant = elim (Bool-cases (leb c.clicks c.views && leb c.conversions c.clicks)) [
    | inl e ↦ rw e tt
    | inr e ↦ rw e (ground (arith, e), tt)
  ]

-- A rule on every metric raises what its rule on each metric does.
each_meant :
    (P : Flag → Type 0) (rule : Metric → ℕ → ℕ → List Flag) (p c : Claim)
    → ((name : Metric) → All P (rule name (value_of name c) (value_of name p)))
    → All P (each_metric rule (some p) c)
unfolding each_metric
each_meant P rule p c h =
    All-append P (rule views c.views p.views) _ (h views)
      (All-append P (rule clicks c.clicks p.clicks) _ (h clicks) (h conversions))

decrease_meant :
    (P : Flag → Type 0) (name : Metric) (new old : ℕ)
    → (new + old / 100 < old → P (record { key = decrease name; severity = low }))
    → All P (check_decrease name new old)
unfolding check_decrease
decrease_meant P name new old h = elim (Bool-cases (old == 0)) [
  | inl e ↦ rw e tt
  | inr e ↦ rw e (elim (Bool-cases (ltb (new + old / 100) old)) [
    | inl f ↦ rw f (h (ltb→lt _ _ f), tt)
    | inr f ↦ rw f tt
  ])
]

spike_meant :
    (P : Flag → Type 0) (name : Metric) (new old : ℕ)
    → ((0 < old) × (6 * old < new) → P (record { key = spike name; severity = high }))
    → All P (check_spike name new old)
unfolding check_spike
spike_meant P name new old h = elim (Bool-cases (old == 0)) [
  | inl e ↦ rw e tt
  | inr e ↦ rw e (elim (Bool-cases (ltb (5 * old) (new - old))) [
    | inl f ↦ rw f (h (ground (arith, e), ground (arith, f)), tt)
    | inr f ↦ rw f tt
  ])
]

history_meant :
    (previous : Option Claim) (c : Claim) (has_evidence : Bool)
    → All
        (FlagMeans previous c has_evidence)
        (each_metric check_decrease previous c ++ each_metric check_spike previous c)
unfolding each_metric
history_meant none c has_evidence = tt
history_meant (some p) c has_evidence =
    let P = FlagMeans (some p) c has_evidence in
    All-append P (each_metric check_decrease (some p) c) (each_metric check_spike (some p) c)
      (each_meant P check_decrease p c (λ name. decrease_meant P name _ _ (λ h. h)))
      (each_meant P check_spike p c (λ name. spike_meant P name _ _ (λ h. h)))

-- Every flag of a submission is raised for a reason: a click rate above 35 % of at least 100 views or
-- a conversion rate above 60 % of at least 20 clicks, of high severity exactly from three times the
-- limit on; metrics out of order; 50000 views without evidence; a metric that fell by more than a
-- hundredth since the previous report, or grew more than sixfold from a positive value.
pub evaluate_submission-FlagMeans :
    (previous : Option Claim) (c : Claim) (has_evidence : Bool)
    → All (FlagMeans previous c has_evidence) (evaluate_submission previous c has_evidence)
unfolding evaluate_submission
evaluate_submission-FlagMeans previous c has_evidence =
    let P = FlagMeans previous c has_evidence in
    let ctr =
      ratio_meant high_ctr c.clicks c.views 100 35 P (omega arith)
        (λ h. (h, severity_iff c.clicks c.views 35)) in
    let cvr =
      ratio_meant high_cvr c.conversions c.clicks 20 60 P (omega arith)
        (λ h. (h, severity_iff c.conversions c.clicks 60)) in
    All-append P _ _ ctr (
      All-append P _ _ cvr (
        All-append P _ _ (order-Meant previous c has_evidence) (
          All-append P _ _ (evidence-Meant previous c has_evidence)
            (history_meant previous c has_evidence))))
