-- ===== src/Alerting/Escalation.antt =====
-- What several reconciliations do to the table of alerts
-- (affiliate-reconciliation-backend/app/services/alerting.py).
use affiliate_platform.Config.{hour}
use affiliate_platform.Prelude.{
  ℕ, ◌+◌, ◌*◌, ◌≤◌, ◌≡◌, refl, sym, ap, ◌∙◌, ◌≢◌, inl, inr, Bool, true, false, Option, none, some,
  List, ◌∷◌, arith, ltb, ◌==◌, if◌then◌else◌, Bool-cases,
}
use affiliate_platform.Enums.{discrepancy_high, AlertSeverity, type_high_discrepancy, data_quality}
use affiliate_platform.Alerting.{
  Alert, Subject, add_alert, alerts_of, make_alert, alert_for, maybe_create_alert,
  repeat_high_discrepancy,
}
use affiliate_platform.Alerting.Rules.{repeat_iff, maybe_create_alert_lem, RuleMeans}

-- No log has more than one alert.
abbrev pub OnePerLog : List Alert → Type 0
OnePerLog alerts = (log_id : ℕ) → alerts_of log_id alerts ≤ 1

add_alert-OnePerLog :
    (alerts : List Alert) (s : Subject) (retry_scheduled : Bool) (now db_now : ℕ)
    (new : Option Alert)
    → alerts_of s.log_id alerts ≡ 0
    → RuleMeans alerts s retry_scheduled now db_now new
    → OnePerLog alerts
    → OnePerLog (add_alert new alerts)
unfolding alerts_of
add_alert-OnePerLog alerts s r now db_now none fresh means one = one
add_alert-OnePerLog alerts s r now db_now (some a) fresh means one = λ log_id.
    elim (Bool-cases (a.reconciliation_log_id == log_id)) [
      | inl e ↦
          let same_log : s.log_id ≡ log_id = sym means.0 ∙ ground (arith, e) in
          let none_yet : alerts_of log_id alerts ≡ 0 = rw same_log at fresh in
          rw e (omega (arith, none_yet))
      | inr e ↦ rw e (one log_id)
    ]

-- However often a log is reconciled, it has at most one alert.
pub maybe_create_alert-OnePerLog :
    (alerts : List Alert) (s : Subject) (retry_scheduled : Bool) (now db_now : ℕ)
    → OnePerLog alerts
    → OnePerLog (maybe_create_alert alerts s retry_scheduled now db_now).0
maybe_create_alert-OnePerLog alerts s r now db_now one =
    elim (maybe_create_alert_lem alerts s r now db_now) [
      | inl (_, _, e) ↦ rw e one
      | inr (fresh, means, e) ↦ rw e (add_alert-OnePerLog alerts s r now db_now _ fresh means one)
    ]

abbrev high_alert : List Alert → Subject → ℕ → ℕ → Alert
high_alert alerts s now db_now =
    make_alert s type_high_discrepancy data_quality
      (if repeat_high_discrepancy alerts s.user_id s.platform_id now
        then AlertSeverity.critical
        else AlertSeverity.high)
      db_now

high_discrepancy_alert :
    (alerts : List Alert) (s : Subject) (r : Bool) (now db_now : ℕ)
    → s.status ≡ discrepancy_high
    → alerts_of s.log_id alerts ≡ 0
    → maybe_create_alert alerts s r now db_now
      ≡ (high_alert alerts s now db_now ∷ alerts, some (high_alert alerts s now db_now))
unfolding maybe_create_alert alert_for
high_discrepancy_alert alerts s r now db_now h fresh =
    let none_yet : ltb 0 (alerts_of s.log_id alerts) ≡ false = ground (arith, fresh) in
    rw none_yet (simp h refl)

-- Of two high discrepancies of the same user on the same platform, with different logs that had no
-- alert before, the second one raises a critical alert if it comes at most six hours after the
-- first was recorded, whatever was recorded before.
pub second_is_critical :
    (alerts : List Alert) (first second : Subject) (r r' : Bool) (now db_now now' db_now' : ℕ)
    → first.status ≡ discrepancy_high
    → second.status ≡ discrepancy_high
    → first.user_id ≡ second.user_id
    → first.platform_id ≡ second.platform_id
    → first.log_id ≢ second.log_id
    → alerts_of first.log_id alerts ≡ 0
    → alerts_of second.log_id alerts ≡ 0
    → now' ≤ db_now + 6 * hour
    → let recorded = (maybe_create_alert alerts first r now db_now).0 in
      (a : Alert) × ((maybe_create_alert recorded second r' now' db_now').1 ≡ some a)
      × (a.severity ≡ AlertSeverity.critical)
unfolding alerts_of make_alert
second_is_critical alerts first second r r' now db_now now' db_now' h k user platform other fresh
      fresh' soon =
    let a = high_alert alerts first now db_now in
    let none_yet : alerts_of second.log_id (a ∷ alerts) ≡ 0 = ground (arith, other, fresh') in
    let repeated : repeat_high_discrepancy (a ∷ alerts) second.user_id second.platform_id now'
        ≡ true =
      (repeat_iff second now' (a ∷ alerts)).1 (inl (user, platform, refl, soon)) in
    rw (high_discrepancy_alert alerts first r now db_now h fresh) (
      high_alert (a ∷ alerts) second now' db_now',
      ap (λ p. p.1) (high_discrepancy_alert (a ∷ alerts) second r' now' db_now' k none_yet),
      rw repeated refl,
    )
