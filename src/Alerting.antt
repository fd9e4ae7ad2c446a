-- ===== src/Alerting.antt =====
-- The alerts of affiliate-reconciliation-backend/app/services/alerting.py. The table of alerts is a
-- list; the texts of an alert are left out, and so are the log lines.
pub mod Rules
pub mod Escalation
mod Examples
use affiliate_platform.Config.{hour, repeat_overclaim_window_hours}
use affiliate_platform.Prelude.{
  ℕ, ◌+◌, ◌-◌, ◌*◌, Bool, true, false, not, ◌&&◌, ◌||◌, Option, none, some, List, [], ◌∷◌, ltb, leb,
  ◌==◌, if◌then◌else◌,
}
use affiliate_platform.Enums.{
  ReconciliationStatus, discrepancy_high, affiliate_overclaimed, missing_platform_data,
  DiscrepancyLevel, AlertSeverity, AlertCategory, data_quality, fraud, system_health, AlertType,
  type_high_discrepancy, type_missing_data,
}

pub record Alert : Type 0 where
  pub reconciliation_log_id : ℕ
  pub user_id : ℕ
  pub platform_id : ℕ
  pub alert_type : AlertType
  pub category : AlertCategory
  pub severity : AlertSeverity
  pub created_at : ℕ

-- What `maybe_create_alert` reads of the log, and of the user and the post.
pub record Subject : Type 0 where
  pub log_id : ℕ
  pub status : ReconciliationStatus
  pub discrepancy_level : Option DiscrepancyLevel
  pub user_id : ℕ
  pub platform_id : ℕ

abbrev pub is_high_discrepancy : AlertType → Bool
is_high_discrepancy type_high_discrepancy = true
is_high_discrepancy _ = false

abbrev pub is_critical : Option DiscrepancyLevel → Bool
is_critical (some DiscrepancyLevel.critical) = true
is_critical _ = false

-- The filter of the query in `_repeat_high_discrepancy`.
unfoldable pub is_repeat : ℕ → ℕ → ℕ → Alert → Bool
is_repeat user_id platform_id now a =
    a.user_id == user_id
    && a.platform_id == platform_id
    && is_high_discrepancy a.alert_type
    && leb (now - repeat_overclaim_window_hours * hour) a.created_at

-- `count() > 0`.
unfoldable pub repeat_high_discrepancy : List Alert → ℕ → ℕ → ℕ → Bool
repeat_high_discrepancy [] user_id platform_id now = false
repeat_high_discrepancy (a ∷ alerts) user_id platform_id now =
    is_repeat user_id platform_id now a || repeat_high_discrepancy alerts user_id platform_id now

-- The alerts of one log, and `log.alert is not None`.
unfoldable pub alerts_of : ℕ → List Alert → ℕ
alerts_of log_id [] = 0
alerts_of log_id (a ∷ alerts) =
    if a.reconciliation_log_id == log_id
    then 1 + alerts_of log_id alerts
    else alerts_of log_id alerts

-- An alert about a subject, at the time that the database gives it.
unfoldable pub make_alert : Subject → AlertType → AlertCategory → AlertSeverity → ℕ → Alert
make_alert s alert_type category severity db_now = record {
  reconciliation_log_id = s.log_id;
  user_id = s.user_id;
  platform_id = s.platform_id;
  alert_type = alert_type;
  category = category;
  severity = severity;
  created_at = db_now;
}

-- The three rules, for a log without an alert.
unfoldable pub alert_for : List Alert → Subject → Bool → ℕ → ℕ → ReconciliationStatus → Option Alert
unfolding make_alert repeat_high_discrepancy
alert_for alerts s retry_scheduled now db_now affiliate_overclaimed =
    let severity =
      if is_critical s.discrepancy_level then AlertSeverity.critical else AlertSeverity.high in
    some (make_alert s type_high_discrepancy fraud severity db_now)
alert_for alerts s retry_scheduled now db_now discrepancy_high =
    let severity =
      if repeat_high_discrepancy alerts s.user_id s.platform_id now
      then AlertSeverity.critical
      else AlertSeverity.high in
    some (make_alert s type_high_discrepancy data_quality severity db_now)
alert_for alerts s retry_scheduled now db_now missing_platform_data =
    if retry_scheduled
    then none
    else some (make_alert s type_missing_data system_health AlertSeverity.medium db_now)
alert_for alerts s retry_scheduled now db_now _ = none

-- `session.add` of an alert, if there is one.
abbrev pub add_alert : Option Alert → List Alert → List Alert
add_alert none alerts = alerts
add_alert (some a) alerts = a ∷ alerts

-- `maybe_create_alert`: the alerts afterwards, and the new one.
unfoldable pub maybe_create_alert : List Alert → Subject → Bool → ℕ → ℕ → List Alert × Option Alert
unfolding alerts_of alert_for
maybe_create_alert alerts s retry_scheduled now db_now =
    let new = alert_for alerts s retry_scheduled now db_now s.status in
    if ltb 0 (alerts_of s.log_id alerts) then (alerts, none) else (add_alert new alerts, new)
