-- ===== src/Breaker/Probes.antt =====
-- How many requests a half-open breaker lets through before an outcome is recorded
-- (affiliate-reconciliation-backend/app/utils/circuit_breaker.py).
use affiliate_platform.Config.{half_open_probe_count}
use affiliate_platform.Prelude.{ℕ, ◌+◌, ◌-◌, ◌≤◌, ◌≡◌, refl, List, [], ◌∷◌, arith, length, min}
use affiliate_platform.Breaker.{BreakerState, opened, half_open, allow}
use affiliate_platform.Breaker.Traces.{Event, ask, run, step}

-- Requests at the given times, with no outcome recorded between them.
abbrev pub asks_at : List ℕ → List Event
asks_at [] = []
asks_at (t ∷ ts) = ask t ∷ asks_at ts

-- A half-open breaker grants exactly the probes it has left, however many requests come.
pub half_open_grants :
    (st : BreakerState) (ts : List ℕ)
    → st.state ≡ half_open
    → st.half_open_probes ≤ half_open_probe_count
    → (run st (asks_at ts)).1 ≡ min (half_open_probe_count - st.half_open_probes) (length ts)
unfolding run step allow
half_open_grants st [] h k = omega arith
half_open_grants st (t ∷ ts) h k = ground (
  arith,
  half_open_grants (record st { half_open_probes = st.half_open_probes + 1 }) ts h,
  half_open_grants st ts h,
)

-- From an open breaker at most three requests are granted until an outcome is recorded, whatever
-- the times of the requests.
pub open_grants-le :
    (st : BreakerState) (ts : List ℕ)
    → st.state ≡ opened
    → (run st (asks_at ts)).1 ≤ half_open_probe_count
unfolding run step allow
open_grants-le st [] h = omega arith
open_grants-le st (t ∷ ts) h = ground (
  arith,
  half_open_grants (record st { state = half_open; half_open_probes = 1 }) ts refl,
  open_grants-le st ts h,
)
