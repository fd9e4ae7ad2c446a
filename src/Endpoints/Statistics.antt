-- ===== src/Endpoints/Statistics.antt =====
-- `get_alert_stats` (affiliate-reconciliation-backend/app/api/v1/endpoints/alerts.py): the counts of
-- the alerts by status and by type.
use affiliate_platform.Enums.{open_alert, resolved, AlertStatus}
use affiliate_platform.Prelude.{
  arith, same_iff, ap, true, sym, ◌*◌, ◌∙◌, ◌-◌, some, ◌≡◌, leb, same, String, Bool, ℕ, List, refl,
  length,
}
use affiliate_platform.Endpoints.Resolution.{AlertRow, same_alert_status, has_alert_status}
use affiliate_platform.Tables.{rows}
use affiliate_platform.Tables.Groups.{grouped, total-grouped, sizes, size_of, size_of-grouped}
use affiliate_platform.Tables.Joins.{All-every, total-ext, total, total-one, total-map}
use affiliate_platform.Config.{hour}

pub record AlertStats : Type 0 where
  pub total_alerts : ℕ
  pub by_status : List (AlertStatus × ℕ)
  pub by_type : List (String × ℕ)
  pub recent_24h : ℕ

abbrev pub is_recent : ℕ → AlertRow → Bool
is_recent now a = leb (now - 24 * hour) a.created_at

unfoldable pub get_alert_stats : List AlertRow → ℕ → AlertStats
unfolding grouped rows
get_alert_stats alerts now = record {
  total_alerts = length alerts;
  by_status = sizes (grouped same_alert_status (λ a. a.status) alerts);
  by_type = sizes (grouped same (λ a. a.alert_type) alerts);
  recent_24h = length (rows (is_recent now) alerts);
}

-- The sizes of the groups add up to the number of the alerts.
sizes-total :
    {K : Type 0} (same_key : K → K → Bool) (key : AlertRow → K) (alerts : List AlertRow)
    → total (λ c. c.1) (sizes (grouped same_key key alerts)) ≡ length alerts
sizes-total same_key key alerts =
    let groups = grouped same_key key alerts in
    total-map (λ c. c.1) (λ g. (g.0, length g.1)) groups
    ∙ total-ext (λ g. length g.1) (λ g. total (λ a. 1) g.1) groups
        (All-every _ groups (λ g. sym (total-one g.1)))
    ∙ total-grouped same_key (λ a. 1) key alerts
    ∙ total-one alerts

status_symmetric : (s t : AlertStatus) → same_alert_status s t ≡ same_alert_status t s
status_symmetric open_alert open_alert = refl
status_symmetric open_alert resolved = refl
status_symmetric resolved open_alert = refl
status_symmetric resolved resolved = refl

status_congruent :
    (s t u : AlertStatus)
    → same_alert_status s t ≡ true
    → same_alert_status s u ≡ same_alert_status t u
status_congruent open_alert open_alert u e = refl
status_congruent open_alert resolved u e = cc
status_congruent resolved open_alert u e = cc
status_congruent resolved resolved u e = refl

same_symmetric : (s t : String) → same s t ≡ same t s
same_symmetric s t = ground (arith, same_iff s t, same_iff t s)

same_congruent : (s t u : String) → same s t ≡ true → same s u ≡ same t u
same_congruent s t u e = ap (λ x. same x u) ((same_iff s t).0 e)

-- What the statistics count.
pub record StatsMeans (alerts : List AlertRow) (stats : AlertStats) : Type 0 where
  pub all_statuses : total (λ c. c.1) stats.by_status ≡ stats.total_alerts
  pub all_types : total (λ c. c.1) stats.by_type ≡ stats.total_alerts
  pub of_status :
      (s : AlertStatus)
      → size_of same_alert_status s stats.by_status
        ≡ length (rows (has_alert_status (some s)) alerts)
  pub of_type :
      (t : String) → size_of same t stats.by_type ≡ length (rows (λ a. same a.alert_type t) alerts)

-- The counts by status add up to the number of all alerts, and so do those by type; the count of a
-- status is the number of the alerts that the filter of `get_alerts` passes for it, and the count of a
-- type is the number of the alerts of this type. A status or a type without an entry counts 0.
pub get_alert_stats-StatsMeans :
    (alerts : List AlertRow) (now : ℕ) → StatsMeans alerts (get_alert_stats alerts now)
unfolding get_alert_stats
get_alert_stats-StatsMeans alerts now = record {
  all_statuses = sizes-total same_alert_status (λ a. a.status) alerts;
  all_types = sizes-total same (λ a. a.alert_type) alerts;
  of_status = λ s.
      size_of-grouped same_alert_status
        (record { symmetric = status_symmetric; congruent = status_congruent }) (λ a. a.status) s
        alerts;
  of_type = λ t.
      size_of-grouped same (record { symmetric = same_symmetric; congruent = same_congruent })
        (λ a. a.alert_type) t alerts;
}
