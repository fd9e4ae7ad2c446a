-- ===== src/Classifier/Verdicts.antt =====
-- What the classifier decides when the platform reports every metric, in terms of the claims and the
-- adjusted platform values
-- (affiliate-reconciliation-backend/app/services/discrepancy_classifier.py).
use affiliate_platform.Config.{
  base_tolerance_pct, low_max, medium_max, overclaim_threshold_pct, overclaim_critical_pct,
}
use mathlib.Core.Path.{subst}
use affiliate_platform.Prelude.{
  sym, ◌∙◌, ℕ, ◌≤◌, ◌<◌, String, ◌≡◌, refl, ◌↔◌, ◌⊎◌, inl, inr, Bool, true, false, ◌||◌, Option,
  none, some, List, arith, Bool-cases, Ratio, IsRatio, max_ratio,
}
use affiliate_platform.Enums.{
  ReconciliationStatus, matched, discrepancy_low, discrepancy_medium, discrepancy_high,
  affiliate_overclaimed, DiscrepancyLevel,
}
use affiliate_platform.Metrics.{pct_diff}
use affiliate_platform.Classifier.{
  determine_status, Verdict, full_data_verdict, Claim, Reported, classify, adjust, at_most, exceeds,
  discrepancy, diff_pct,
}
use affiliate_platform.Classifier.Thresholds.{
  Overclaims, Within, at_most_iff, exceeds_iff, at_most_max, pct_diff-IsRatio,
}

-- A report in which no metric is missing.
abbrev pub full : Claim → Reported
full p = record { views = some p.views; clicks = some p.clicks; conversions = some p.conversions }

-- The platform's values with the growth allowance.
abbrev pub adjusted : ℕ → Claim → Claim
adjusted elapsed p = record {
  views = adjust elapsed p.views;
  clicks = adjust elapsed p.clicks;
  conversions = adjust elapsed p.conversions;
}

-- Some metric is claimed above the platform's value by at least t hundredths of it.
abbrev pub SomeOverclaims : ℕ → Claim → Claim → Type 0
SomeOverclaims t c p =
    Overclaims t c.views p.views
    ⊎ Overclaims t c.clicks p.clicks
    ⊎ Overclaims t c.conversions p.conversions

-- Every metric is claimed within t hundredths of the platform's value.
abbrev pub AllWithin : ℕ → Claim → Claim → Type 0
AllWithin t c p =
    Within t c.views p.views × Within t c.clicks p.clicks × Within t c.conversions p.conversions

-- What each status says of a claim and the adjusted platform values: an overclaim, or else the tier
-- of the greatest difference. No other status is given to full data.
abbrev pub StatusMeans : ReconciliationStatus → Claim → Claim → Type 0
StatusMeans affiliate_overclaimed c q = SomeOverclaims overclaim_threshold_pct c q
StatusMeans matched c q =
    ¬ SomeOverclaims overclaim_threshold_pct c q × AllWithin base_tolerance_pct c q
StatusMeans discrepancy_low c q =
    ¬ SomeOverclaims overclaim_threshold_pct c q
    × ¬ AllWithin base_tolerance_pct c q
    × AllWithin low_max c q
StatusMeans discrepancy_medium c q =
    ¬ SomeOverclaims overclaim_threshold_pct c q
    × ¬ AllWithin low_max c q
    × AllWithin medium_max c q
StatusMeans discrepancy_high c q =
    ¬ SomeOverclaims overclaim_threshold_pct c q × ¬ AllWithin medium_max c q
StatusMeans _ c q = ⊥

-- What the level says: critical for an overclaim of at least 50 %, high for any other overclaim and
-- for the highest tier, and the tier's name below that.
abbrev pub LevelMeans : Option DiscrepancyLevel → ReconciliationStatus → Claim → Claim → Type 0
LevelMeans (some DiscrepancyLevel.critical) status c q =
    (status ≡ affiliate_overclaimed) × SomeOverclaims overclaim_critical_pct c q
LevelMeans (some DiscrepancyLevel.high) status c q =
    ((status ≡ affiliate_overclaimed) × ¬ SomeOverclaims overclaim_critical_pct c q)
    ⊎ (status ≡ discrepancy_high)
LevelMeans (some DiscrepancyLevel.medium) status c q = status ≡ discrepancy_medium
LevelMeans (some DiscrepancyLevel.low) status c q = status ≡ discrepancy_low
LevelMeans none status c q = status ≡ matched

abbrev exceeding : ℕ → ℕ → ℕ → Bool
exceeding t claimed value =
    exceeds (discrepancy claimed (some value)) (diff_pct claimed (some value)) t

-- The overclaim conditions, and the greatest difference.
abbrev above : ℕ → Claim → Claim → Bool
above t c p =
    exceeding t c.views p.views
    || exceeding t c.clicks p.clicks
    || exceeding t c.conversions p.conversions

abbrev greatest : Claim → Claim → Ratio
greatest c p =
    max_ratio (max_ratio (pct_diff c.views p.views) (pct_diff c.clicks p.clicks))
      (pct_diff c.conversions p.conversions)

above_iff : (t : ℕ) (c p : Claim) → t ≤ 100 → (above t c p ≡ true) ↔ SomeOverclaims t c p
above_iff t c p h =
    let v = exceeds_iff t c.views p.views h in
    let k = exceeds_iff t c.clicks p.clicks h in
    let o = exceeds_iff t c.conversions p.conversions h in
    (λ e. ground (arith, v.0, k.0, o.0), λ e. ground (arith, v.1, k.1, o.1))

max_ratio-IsRatio : (a b : Ratio) → IsRatio a → IsRatio b → IsRatio (max_ratio a b)
max_ratio-IsRatio a b ha hb = ground arith

greatest_iff : (t : ℕ) (c p : Claim) → t < 100 → (at_most (greatest c p) t ≡ true) ↔ AllWithin t c p
greatest_iff t c p h =
    let a = pct_diff c.views p.views in
    let b = pct_diff c.clicks p.clicks in
    let d = pct_diff c.conversions p.conversions in
    let ha = pct_diff-IsRatio c.views p.views in
    let hb = pct_diff-IsRatio c.clicks p.clicks in
    let hd = pct_diff-IsRatio c.conversions p.conversions in
    let inner = at_most_max a b t ha hb in
    let outer = at_most_max (max_ratio a b) d t (max_ratio-IsRatio a b ha hb) hd in
    let v = at_most_iff t c.views p.views h in
    let k = at_most_iff t c.clicks p.clicks h in
    let o = at_most_iff t c.conversions p.conversions h in
    (
      λ e.
          let (ab, last) = outer.0 e in
          let (first, second) = inner.0 ab in (v.0 first, k.0 second, o.0 last),
      λ w. outer.1 (inner.1 (v.1 w.0, k.1 w.1), o.1 w.2),
    )

classify-full :
    (c p : Claim) (elapsed : ℕ) (partial_missing : List String)
    → let q = adjusted elapsed p in
      let r = classify c (full p) elapsed partial_missing in
      let v =
        full_data_verdict
          (above overclaim_threshold_pct c q)
          (above overclaim_critical_pct c q)
          (some (greatest c q)) in
      (r.status ≡ v.status)
      × (r.trust_event ≡ v.trust_event)
      × (r.discrepancy_level ≡ v.discrepancy_level)
unfolding classify determine_status
classify-full c p elapsed partial_missing = (refl, refl, refl)

not_of : {P : Type 0} (b : Bool) → b ≡ false → (P → b ≡ true) → ¬ P
not_of b e f p = cc (f p)

module _ (c q : Claim) (crit : Bool) where
  abbrev decided : Verdict
  decided = full_data_verdict (above overclaim_threshold_pct c q) crit (some (greatest c q))

  tier_means : above overclaim_threshold_pct c q ≡ false → StatusMeans decided.status c q
  unfolding full_data_verdict
  tier_means o =
      let calm = not_of _ o (above_iff overclaim_threshold_pct c q (omega arith)).1 in
      let base = greatest_iff base_tolerance_pct c q (omega arith) in
      let low = greatest_iff low_max c q (omega arith) in
      let medium = greatest_iff medium_max c q (omega arith) in
      rw o (elim (Bool-cases (at_most (greatest c q) base_tolerance_pct)) [
        | inl a ↦ rw a (calm, base.0 a)
        | inr a ↦ rw a (elim (Bool-cases (at_most (greatest c q) low_max)) [
          | inl b ↦ rw b (calm, not_of _ a base.1, low.0 b)
          | inr b ↦ rw b (elim (Bool-cases (at_most (greatest c q) medium_max)) [
            | inl d ↦ rw d (calm, not_of _ b low.1, medium.0 d)
            | inr d ↦ rw d (calm, not_of _ d medium.1)
          ])
        ])
      ])

  StatusMeans-decided : StatusMeans decided.status c q
  unfolding full_data_verdict
  StatusMeans-decided = elim (Bool-cases (above overclaim_threshold_pct c q)) [
    | inl o ↦ rw o ((above_iff overclaim_threshold_pct c q (omega arith)).0 o)
    | inr o ↦ tier_means o
  ]

overclaimed_of :
    (c q : Claim) (crit : Bool)
    → above overclaim_threshold_pct c q ≡ true
    → (decided c q crit).status ≡ affiliate_overclaimed
unfolding full_data_verdict
overclaimed_of c q crit o = rw o

LevelMeans-decided :
    (c q : Claim)
    → let v = decided c q (above overclaim_critical_pct c q) in
      LevelMeans v.discrepancy_level v.status c q
unfolding full_data_verdict
LevelMeans-decided c q =
    let crit = above_iff overclaim_critical_pct c q (omega arith) in
    elim (Bool-cases (above overclaim_threshold_pct c q)) [
      | inl o ↦ elim (Bool-cases (above overclaim_critical_pct c q)) [
        | inl k ↦ rw (o, k) (refl, crit.0 k)
        | inr k ↦ rw (o, k) (inl (refl, not_of _ k crit.1))
      ]
      | inr o ↦ rw o (ground arith)
    ]

-- With full data the status and the level mean what they say of the claims and the adjusted platform
-- values: overclaimed exactly if some metric is claimed at least 20 % above, critical exactly if some
-- is at least 50 % above, and otherwise the tier (5, 10, 20 %) of the greatest difference.
pub classify_meaning :
    (c p : Claim) (elapsed : ℕ) (partial_missing : List String)
    → let q = adjusted elapsed p in
      let r = classify c (full p) elapsed partial_missing in
      StatusMeans r.status c q × LevelMeans r.discrepancy_level r.status c q
classify_meaning c p elapsed partial_missing =
    let q = adjusted elapsed p in
    let (status, _, level) = classify-full c p elapsed partial_missing in
    rw (status, level)
      (StatusMeans-decided c q (above overclaim_critical_pct c q), LevelMeans-decided c q)

-- With full data the status is overclaimed exactly if some metric is claimed at least 20 % above
-- its adjusted platform value.
pub overclaimed_iff :
    (c p : Claim) (elapsed : ℕ) (partial_missing : List String)
    → ((classify c (full p) elapsed partial_missing).status ≡ affiliate_overclaimed)
      ↔ SomeOverclaims overclaim_threshold_pct c (adjusted elapsed p)
overclaimed_iff c p elapsed partial_missing =
    let q = adjusted elapsed p in
    let (status, _, _) = classify-full c p elapsed partial_missing in
    let crit = above overclaim_critical_pct c q in
    let means = StatusMeans-decided c q crit in
    (
      λ e. subst (λ s. StatusMeans s c q) (sym status ∙ e) means,
      λ o.
          status
          ∙ overclaimed_of c q crit ((above_iff overclaim_threshold_pct c q (omega arith)).1 o),
    )
