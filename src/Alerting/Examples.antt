-- ===== src/Alerting/Examples.antt =====
-- Alerts on small inputs.
use affiliate_platform.Config.{hour}
use affiliate_platform.Prelude.{ℕ, ◌<◌, ◌≡◌, ◌⊎◌, false, none, some, [], arith}
use affiliate_platform.Enums.{discrepancy_high, affiliate_overclaimed, DiscrepancyLevel}
use affiliate_platform.Alerting.{Subject, add_alert, alerts_of, maybe_create_alert}
use affiliate_platform.Alerting.Rules.{RuleMeans, maybe_create_alert_lem}
use affiliate_platform.Alerting.Escalation.{OnePerLog}

abbrev overclaim_of_log_1 : Subject
overclaim_of_log_1 = record {
  log_id = 1;
  status = affiliate_overclaimed;
  discrepancy_level = some DiscrepancyLevel.critical;
  user_id = 7;
  platform_id = 2;
}

abbrev discrepancy_of_log : ℕ → Subject
discrepancy_of_log n = record overclaim_of_log_1 {
  log_id = n;
  status = discrepancy_high;
  discrepancy_level = some DiscrepancyLevel.high;
}

maybe_create_alert_example :
    let (after, new) = maybe_create_alert [] overclaim_of_log_1 false hour hour in
    ((0 < alerts_of 1 []) × (new ≡ none) × (after ≡ []))
    ⊎ ((alerts_of 1 [] ≡ 0)
        × RuleMeans [] overclaim_of_log_1 false hour hour new
        × (after ≡ add_alert new []))
maybe_create_alert_example = maybe_create_alert_lem [] overclaim_of_log_1 false hour hour

empty-OnePerLog : OnePerLog []
unfolding alerts_of
empty-OnePerLog log_id = omega arith
