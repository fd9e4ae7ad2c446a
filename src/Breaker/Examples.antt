-- ===== src/Breaker/Examples.antt =====
-- The circuit breaker at work on small inputs.
use affiliate_platform.Config.{second}
use affiliate_platform.Prelude.{◌*◌, ◌≡◌, refl, List, [], ◌∷◌, arith, lookup}
use affiliate_platform.Breaker.{ℕ, some, BreakerState, opened, half_open, initial, get, allow, fail}
use affiliate_platform.Breaker.Invariant.{AllInv, initial-Inv}
use affiliate_platform.Breaker.Traces.{ask, failure, failures_at, step, run, run_open}

-- Opened at second 10 by a fifth failure.
abbrev tripped : BreakerState
tripped = record {
  failures = 5;
  state = opened;
  opened_at = some (10 * second);
  half_open_probes = 0;
}

abbrev two_probes : BreakerState
two_probes = record tripped { state = half_open; half_open_probes = 2 }

abbrev five_failures : List ℕ
five_failures = 1 * second ∷ 2 * second ∷ 3 * second ∷ 4 * second ∷ []

trip :
    (run initial (failure (9 * second) ∷ failures_at five_failures)).0
    ≡ record tripped { opened_at = some (4 * second) }
unfolding run step fail
trip = refl

refused_then_probed :
    (run tripped (ask (300 * second) ∷ ask (310 * second) ∷ ask (311 * second) ∷ []))
    ≡ (two_probes, 2)
unfolding run step allow
refused_then_probed = refl

empty-AllInv : AllInv []
unfolding get lookup
empty-AllInv p = initial-Inv

run_open_example :
    let (st, granted) = run tripped (ask (11 * second) ∷ failure (12 * second) ∷ []) in
    (st.state ≡ opened) × (st.opened_at ≡ some (10 * second)) × (granted ≡ 0)
run_open_example =
    run_open tripped (ask (11 * second) ∷ failure (12 * second) ∷ []) (10 * second) refl refl
      (ground arith)
