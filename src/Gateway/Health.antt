-- ===== src/Gateway/Health.antt =====
-- The health checks and the root of affiliate-reconciliation-backend/app/main.py, without the time, the
-- service's name and the version. `ping` is what `check_redis_health` answers.
use affiliate_platform.Prelude.{
  ◌≡◌, refl, Bool, true, false, ◌&&◌, Option, none, some, String, followed_by, if◌then◌else◌,
}

-- `check_redis_health`, by whether the package can be imported, the client made, and `ping` answered.
abbrev pub check_redis_health : Bool → Bool → Bool → Bool
check_redis_health imported connected answered = imported && (connected && answered)

pub record Health : Type 0 where
  pub status : String
  pub queue_backend : String
  pub redis_status : Option String

abbrev pub redis_text : Bool → String
redis_text ping = if ping then "healthy" else "unavailable"

-- `health_check`: Redis does not change the status.
unfoldable pub basic_health_check : Bool → Bool → Health
basic_health_check use_redis ping = record {
  status = "healthy";
  queue_backend = if use_redis then "redis" else "memory";
  redis_status = if use_redis then some (redis_text ping) else none;
}

-- The database and Redis in `checks`, without the snapshot of the queue.
pub record DetailedHealth : Type 0 where
  pub status : String
  pub database : String
  pub redis : Option String

abbrev pub database_text : Option String → String
database_text none = "healthy"
database_text (some e) = followed_by "unhealthy: " e

abbrev pub is_none : Option String → Bool
is_none none = true
is_none (some e) = false

-- `detailed_health_check`, with the exception of the database, if there is one.
unfoldable pub detailed_health_check : Option String → Bool → Bool → DetailedHealth
detailed_health_check error use_redis ping = record {
  status = if is_none error && (if use_redis then ping else true) then "healthy" else "degraded";
  database = database_text error;
  redis = if use_redis then some (redis_text ping) else none;
}

-- A Redis that does not answer shows in both checks, and degrades the detailed one only.
degraded :
    (basic_health_check true false
      ≡ record { status = "healthy"; queue_backend = "redis"; redis_status = some "unavailable" })
    × (detailed_health_check none true false
        ≡ record { status = "degraded"; database = "healthy"; redis = some "unavailable" })
unfolding basic_health_check detailed_health_check
degraded = (refl, refl)

-- Both checks say the same of Redis.
pub detailed_health_check-redis :
    (error : Option String) (use_redis ping : Bool)
    → (detailed_health_check error use_redis ping).redis
      ≡ (basic_health_check use_redis ping).redis_status
unfolding basic_health_check detailed_health_check
detailed_health_check-redis error use_redis ping = refl
