-- ===== src/Config.antt =====
-- The settings of affiliate-reconciliation-backend/app/config.py that the modelled code reads.
-- A fraction is given by its hundredths, a duration by the unit that its name says.
pub mod Environment
use affiliate_platform.Enums.{UserRole, affiliate, client, admin}
use affiliate_platform.Prelude.{ℕ, ◌*◌, ℤ, pos, [], ◌∷◌, Dict}

-- RECONCILIATION_SETTINGS
abbrev pub base_tolerance_pct : ℕ
base_tolerance_pct = 5

abbrev pub low_max : ℕ
low_max = 10

abbrev pub medium_max : ℕ
medium_max = 20

abbrev pub overclaim_threshold_pct : ℕ
overclaim_threshold_pct = 20

abbrev pub overclaim_critical_pct : ℕ
overclaim_critical_pct = 50

abbrev pub growth_per_hour_pct : ℕ
growth_per_hour_pct = 10

abbrev pub growth_cap_hours : ℕ
growth_cap_hours = 24

-- TRUST_SCORING, scores and thresholds in hundredths
abbrev pub min_score : ℤ
min_score = pos 0

abbrev pub max_score : ℤ
max_score = pos 100

abbrev pub reduced_frequency_threshold : ℤ
reduced_frequency_threshold = pos 75

abbrev pub increased_monitoring_threshold : ℤ
increased_monitoring_threshold = pos 50

abbrev pub manual_review_threshold : ℤ
manual_review_threshold = pos 25

-- CIRCUIT_BREAKER
abbrev pub failure_threshold : ℕ
failure_threshold = 5

abbrev pub open_cooldown_seconds : ℕ
open_cooldown_seconds = 300

abbrev pub half_open_probe_count : ℕ
half_open_probe_count = 3

-- BACKOFF_POLICY
abbrev pub base_seconds : ℕ
base_seconds = 1

abbrev pub factor : ℕ
factor = 2

abbrev pub max_seconds : ℕ
max_seconds = 60

abbrev pub max_attempts : ℕ
max_attempts = 3

abbrev pub jitter_pct : ℕ
jitter_pct = 10

-- RETRY_POLICY
abbrev pub initial_delay_minutes : ℕ
initial_delay_minutes = 30

abbrev pub missing_max_attempts : ℕ
missing_max_attempts = 5

abbrev pub window_hours : ℕ
window_hours = 24

abbrev pub max_additional_attempts : ℕ
max_additional_attempts = 1

-- QUEUE_SETTINGS
abbrev pub priorities : Dict ℕ
priorities = ("high", 0) ∷ ("normal", 5) ∷ ("low", 10) ∷ []

abbrev pub max_in_memory : ℕ
max_in_memory = 5000

-- ALERTING_SETTINGS
abbrev pub repeat_overclaim_window_hours : ℕ
repeat_overclaim_window_hours = 6

-- DATA_QUALITY_SETTINGS
abbrev pub max_ctr_pct : ℕ
max_ctr_pct = 35

abbrev pub max_cvr_pct : ℕ
max_cvr_pct = 60

-- The three growth limits are whole multiples, 5.0.
abbrev pub max_growth : ℕ
max_growth = 5

abbrev pub evidence_required_views : ℕ
evidence_required_views = 50000

-- The tolerance 0.01, as the divisor that it stands for.
abbrev pub monotonic_divisor : ℕ
monotonic_divisor = 100

abbrev pub min_views_for_ctr : ℕ
min_views_for_ctr = 100

abbrev pub min_clicks_for_cvr : ℕ
min_clicks_for_cvr = 20

-- RATE_LIMIT_SETTINGS, with its defaults
pub record RateLimitSetting : Type 0 where
  pub limit : ℕ
  pub window_seconds : ℕ

abbrev pub default_setting : RateLimitSetting
default_setting = record { limit = 1000; window_seconds = 3600 }

abbrev pub rate_limit_settings : Dict RateLimitSetting
rate_limit_settings =
    ("default", default_setting)
    ∷ ("submission", record { limit = 100; window_seconds = 3600 })
    ∷ ("recon_trigger", record { limit = 10; window_seconds = 60 })
    ∷ ("recon_query", record { limit = 100; window_seconds = 60 })
    ∷ []

abbrev pub role_overrides : UserRole → ℕ
role_overrides admin = 5000
role_overrides client = 2000
role_overrides affiliate = 1000

-- A datetime is a number of microseconds, which is Python's resolution.
abbrev pub second : ℕ
second = 1000000

abbrev pub minute : ℕ
minute = 60 * second

abbrev pub hour : ℕ
hour = 3600 * second
