-- ===== src/Alerting/Rules.antt =====
-- Which alert a reconciliation raises (affiliate-reconciliation-backend/app/services/alerting.py).
use affiliate_platform.Config.{hour}
use affiliate_platform.Prelude.{
  ℕ, ◌+◌, ◌*◌, ◌≤◌, ◌<◌, ◌≡◌, refl, ◌≢◌, ◌↔◌, ◌⊎◌, inl, inr, Bool, true, false, Option, none, some,
  List, [], ◌∷◌, arith, ltb, if◌then◌else◌, ltb→lt, Bool-cases,
}
use affiliate_platform.Enums.{
  ReconciliationStatus, discrepancy_high, affiliate_overclaimed, missing_platform_data,
  AlertSeverity, matched, discrepancy_low, discrepancy_medium, incomplete_platform_data,
  unverifiable, skipped_suspended, type_suspicious_claim, type_system_error, AlertCategory,
  data_quality, fraud, system_health, AlertType, type_high_discrepancy, type_missing_data,
}
use affiliate_platform.Alerting.{
  Alert, Subject, is_critical, is_high_discrepancy, is_repeat, repeat_high_discrepancy, alerts_of,
  make_alert, alert_for, maybe_create_alert, add_alert,
}

-- An earlier alert of high discrepancy for the same user and platform, at most six hours old.
abbrev pub RepeatOf : Subject → ℕ → Alert → Type 0
RepeatOf s now a =
    (a.user_id ≡ s.user_id)
    × (a.platform_id ≡ s.platform_id)
    × (a.alert_type ≡ type_high_discrepancy)
    × (now ≤ a.created_at + 6 * hour)

-- Some alert of the list satisfies the predicate.
abbrev pub Some : (Alert → Type 0) → List Alert → Type 0
Some P [] = ⊥
Some P (a ∷ alerts) = P a ⊎ Some P alerts

is_high_discrepancy_iff :
    (t : AlertType) → (is_high_discrepancy t ≡ true) ↔ (t ≡ type_high_discrepancy)
is_high_discrepancy_iff type_high_discrepancy = (λ _. refl, λ _. refl)
is_high_discrepancy_iff type_missing_data = (λ e. cc, λ e. cc)
is_high_discrepancy_iff type_suspicious_claim = (λ e. cc, λ e. cc)
is_high_discrepancy_iff type_system_error = (λ e. cc, λ e. cc)

is_repeat_iff :
    (s : Subject) (now : ℕ) (a : Alert)
    → (is_repeat s.user_id s.platform_id now a ≡ true) ↔ RepeatOf s now a
unfolding is_repeat
is_repeat_iff s now a = (
  λ e. ground (arith, e, is_high_discrepancy_iff a.alert_type),
  λ r. ground (arith, r, (is_high_discrepancy_iff a.alert_type).1 r.2),
)

pub repeat_iff :
    (s : Subject) (now : ℕ) (alerts : List Alert)
    → (repeat_high_discrepancy alerts s.user_id s.platform_id now ≡ true)
      ↔ Some (RepeatOf s now) alerts
unfolding repeat_high_discrepancy
repeat_iff s now [] = (λ e. cc, λ h. absurd h)
repeat_iff s now (a ∷ alerts) =
    let rest = repeat_iff s now alerts in
    let first = is_repeat_iff s now a in
    elim (Bool-cases (is_repeat s.user_id s.platform_id now a)) [
      | inl e ↦ rw e (λ _. inl (first.0 e), λ _. refl)
      | inr e ↦
          rw e (λ h. inr (rest.0 h), λ h. elim h [ inl r ↦ cc (first.1 r, e) | inr h ↦ rest.1 h ])
    ]

-- An alert is critical for a critical overclaim, and for a high discrepancy that repeats one.
abbrev pub IsCritical : List Alert → Subject → ℕ → Type 0
IsCritical alerts s now =
    ((s.status ≡ affiliate_overclaimed) × (is_critical s.discrepancy_level ≡ true))
    ⊎ ((s.status ≡ discrepancy_high) × Some (RepeatOf s now) alerts)

abbrev pub CategoryMeans : AlertCategory → Subject → Bool → Type 0
CategoryMeans fraud s retry_scheduled = s.status ≡ affiliate_overclaimed
CategoryMeans data_quality s retry_scheduled = s.status ≡ discrepancy_high
CategoryMeans system_health s retry_scheduled =
    (s.status ≡ missing_platform_data) × (retry_scheduled ≡ false)

-- What the rules say: no alert for a subject that no rule covers, and else one about the subject,
-- whose category names the rule and whose severity is critical exactly where `IsCritical` holds.
abbrev pub RuleMeans : List Alert → Subject → Bool → ℕ → ℕ → Option Alert → Type 0
RuleMeans alerts s retry_scheduled now db_now none =
    (s.status ≢ affiliate_overclaimed)
    × (s.status ≢ discrepancy_high)
    × ((s.status ≢ missing_platform_data) ⊎ (retry_scheduled ≡ true))
RuleMeans alerts s retry_scheduled now db_now (some a) =
    (a.reconciliation_log_id ≡ s.log_id)
    × (a.user_id ≡ s.user_id)
    × (a.platform_id ≡ s.platform_id)
    × (a.created_at ≡ db_now)
    × CategoryMeans a.category s retry_scheduled
    × ((a.severity ≡ AlertSeverity.critical) ↔ IsCritical alerts s now)

overclaim_severity :
    (alerts : List Alert) (s : Subject) (now : ℕ) (b : Bool)
    → s.status ≡ affiliate_overclaimed
    → is_critical s.discrepancy_level ≡ b
    → ((if b then AlertSeverity.critical else AlertSeverity.high) ≡ AlertSeverity.critical)
      ↔ IsCritical alerts s now
overclaim_severity alerts s now true e c = (λ _. inl (e, c), λ _. refl)
overclaim_severity alerts s now false e c =
    (λ h. cc, λ h. elim h [ inl (_, d) ↦ cc | inr (d, _) ↦ cc ])

high_severity :
    (alerts : List Alert) (s : Subject) (now : ℕ) (b : Bool)
    → s.status ≡ discrepancy_high
    → repeat_high_discrepancy alerts s.user_id s.platform_id now ≡ b
    → ((if b then AlertSeverity.critical else AlertSeverity.high) ≡ AlertSeverity.critical)
      ↔ IsCritical alerts s now
high_severity alerts s now true e c = (λ _. inr (e, (repeat_iff s now alerts).0 c), λ _. refl)
high_severity alerts s now false e c =
    (λ h. cc, λ h. elim h [ inl (d, _) ↦ cc | inr (_, r) ↦ cc ((repeat_iff s now alerts).1 r) ])

missing_severity :
    (alerts : List Alert) (s : Subject) (now : ℕ)
    → s.status ≡ missing_platform_data
    → (AlertSeverity.medium ≡ AlertSeverity.critical) ↔ IsCritical alerts s now
missing_severity alerts s now e = (λ h. cc, λ h. elim h [ inl (d, _) ↦ cc | inr (d, _) ↦ cc ])

alert_for-RuleMeans :
    (alerts : List Alert) (s : Subject) (retry_scheduled : Bool) (now db_now : ℕ)
    (status : ReconciliationStatus)
    → s.status ≡ status
    → RuleMeans alerts s retry_scheduled now db_now
        (alert_for alerts s retry_scheduled now db_now status)
unfolding alert_for make_alert
alert_for-RuleMeans alerts s r now db_now affiliate_overclaimed e =
    (refl, refl, refl, refl, e, overclaim_severity alerts s now _ e refl)
alert_for-RuleMeans alerts s r now db_now discrepancy_high e =
    (refl, refl, refl, refl, e, high_severity alerts s now _ e refl)
alert_for-RuleMeans alerts s true now db_now missing_platform_data e = (cc, cc, inr refl)
alert_for-RuleMeans alerts s false now db_now missing_platform_data e =
    (refl, refl, refl, refl, (e, refl), missing_severity alerts s now e)
alert_for-RuleMeans alerts s r now db_now matched e = (λ f. cc, λ f. cc, inl (λ f. cc))
alert_for-RuleMeans alerts s r now db_now discrepancy_low e = (λ f. cc, λ f. cc, inl (λ f. cc))
alert_for-RuleMeans alerts s r now db_now discrepancy_medium e = (λ f. cc, λ f. cc, inl (λ f. cc))
alert_for-RuleMeans alerts s r now db_now incomplete_platform_data e =
    (λ f. cc, λ f. cc, inl (λ f. cc))
alert_for-RuleMeans alerts s r now db_now unverifiable e = (λ f. cc, λ f. cc, inl (λ f. cc))
alert_for-RuleMeans alerts s r now db_now skipped_suspended e = (λ f. cc, λ f. cc, inl (λ f. cc))

-- A log that has an alert gets no other, and the table stays as it is. A log without one gets an
-- alert exactly for an overclaim, a high discrepancy, or missing data with no retry scheduled; the
-- alert is about the log, its user and its platform, its category names the rule, and it is
-- critical exactly for a critical overclaim and for a high discrepancy that repeats one of the
-- last six hours.
pub maybe_create_alert_lem :
    (alerts : List Alert) (s : Subject) (retry_scheduled : Bool) (now db_now : ℕ)
    → let (after, new) = maybe_create_alert alerts s retry_scheduled now db_now in
      ((0 < alerts_of s.log_id alerts) × (new ≡ none) × (after ≡ alerts))
      ⊎ ((alerts_of s.log_id alerts ≡ 0)
          × RuleMeans alerts s retry_scheduled now db_now new
          × (after ≡ add_alert new alerts))
unfolding maybe_create_alert
maybe_create_alert_lem alerts s r now db_now =
    elim (Bool-cases (ltb 0 (alerts_of s.log_id alerts))) [
      | inl e ↦ rw e (inl (ltb→lt 0 _ e, refl, refl))
      | inr e ↦
          let means = alert_for-RuleMeans alerts s r now db_now s.status refl in
          rw e (inr (ground (arith, e), means, refl))
    ]
