-- ===== src/Breaker.antt =====
-- The circuit breaker of affiliate-reconciliation-backend/app/utils/circuit_breaker.py.
-- `datetime.now` is a parameter `now`, in microseconds; a difference of times is compared only
-- with a positive duration, so that the subtraction may stop at 0.
pub mod Invariant
pub mod Traces
pub mod Probes
mod Examples
use affiliate_platform.Config.{
  failure_threshold, open_cooldown_seconds, half_open_probe_count, second,
}
use affiliate_platform.Prelude.{
  ℕ, ◌+◌, ◌-◌, ◌*◌, Bool, true, false, ◌&&◌, Option, none, some, String, Dict, lookup, insert, leb,
  if◌then◌else◌,
}

-- The values of `BreakerState.state`.
pub data CircuitState : Type 0 where
  closed opened half_open : CircuitState

pub record BreakerState : Type 0 where
  pub failures : ℕ
  pub state : CircuitState
  pub opened_at : Option ℕ
  pub half_open_probes : ℕ

-- Why a call is refused.
pub data Reason : Type 0 where
  circuit_open half_open_probe_exhausted : Reason

-- `self._states`.
abbrev pub Breakers : Type 0
Breakers = Dict BreakerState

-- `BreakerState()`.
abbrev pub initial : BreakerState
initial = record { failures = 0; state = closed; opened_at = none; half_open_probes = 0 }

-- `_get`, less the entry that `setdefault` adds: the operations below write it.
unfoldable pub get : Breakers → String → BreakerState
get bs platform = elim (lookup platform bs) [ none ↦ initial | some st ↦ st ]

-- `st.opened_at and now - st.opened_at >= timedelta(seconds=cooldown)`.
unfoldable pub cooled_down : ℕ → Option ℕ → Bool
cooled_down now none = false
cooled_down now (some t) = leb (open_cooldown_seconds * second) (now - t)

-- The last `if` of `allow_call`: a probe, as long as there are any left.
unfoldable pub probe : BreakerState → BreakerState × Bool × Option Reason
probe st =
    if leb half_open_probe_count st.half_open_probes
    then (st, false, some half_open_probe_exhausted)
    else (record st { half_open_probes = st.half_open_probes + 1 }, true, none)

allow_in : CircuitState → ℕ → BreakerState → BreakerState × Bool × Option Reason
unfolding cooled_down probe
allow_in closed now st = (st, true, none)
allow_in opened now st =
    if cooled_down now st.opened_at
    then probe (record st { state = half_open; half_open_probes = 0 })
    else (st, false, some circuit_open)
allow_in half_open now st = probe st

-- `allow_call` on the state of one platform.
unfoldable pub allow : ℕ → BreakerState → BreakerState × Bool × Option Reason
unfolding allow_in
allow now st = allow_in st.state now st

unfoldable pub allow_call : Breakers → ℕ → String → Breakers × Bool × Option Reason
unfolding get allow
allow_call bs now platform =
    let (st, ok, reason) = allow now (get bs platform) in (insert platform st bs, ok, reason)

success_in : CircuitState → BreakerState → BreakerState
success_in closed st = record st { failures = 0 }
success_in _ st = record st { failures = 0; state = closed; opened_at = none; half_open_probes = 0 }

-- `record_success` on the state of one platform.
unfoldable pub succeed : BreakerState → BreakerState
unfolding success_in
succeed st = success_in st.state st

unfoldable pub record_success : Breakers → String → Breakers
unfolding get succeed
record_success bs platform = insert platform (succeed (get bs platform)) bs

failure_in : CircuitState → ℕ → BreakerState → BreakerState
failure_in closed now st =
    if leb failure_threshold st.failures
    then record st { state = opened; opened_at = some now }
    else st
failure_in half_open now st = record st { state = opened; opened_at = some now }
failure_in opened now st = st

-- `record_failure` on the state of one platform.
unfoldable pub fail : ℕ → BreakerState → BreakerState
unfolding failure_in
fail now st = failure_in st.state now (record st { failures = st.failures + 1 })

unfoldable pub record_failure : Breakers → ℕ → String → Breakers
unfolding get fail
record_failure bs now platform = insert platform (fail now (get bs platform)) bs
