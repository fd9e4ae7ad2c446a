-- ===== src/Breaker/Traces.antt =====
-- The breaker of one platform over a sequence of calls: when it opens, how long it stays open, and
-- how it recovers (affiliate-reconciliation-backend/app/utils/circuit_breaker.py).
use affiliate_platform.Config.{failure_threshold, open_cooldown_seconds, second}
use affiliate_platform.Prelude.{
  ◌≤◌, ℕ, suc, ◌+◌, ◌*◌, ◌<◌, ◌≡◌, refl, Bool, false, some, List, [], ◌∷◌, arith, All,
  if◌then◌else◌, length, length,
}
use affiliate_platform.Breaker.{
  half_open, true, BreakerState, closed, opened, initial, allow, succeed, fail,
}
use affiliate_platform.Breaker.Invariant.{Inv, initial-Inv, allow-Inv, succeed-Inv, fail-Inv}

-- The calls that clients make about one platform, each at its time.
pub data Event : Type 0 where
  ask success failure : ℕ → Event

abbrev pub time : Event → ℕ
time (ask t) = t
time (success t) = t
time (failure t) = t

-- The breaker after one call, and whether the call granted a request.
unfoldable pub step : BreakerState → Event → BreakerState × Bool
step st (ask t) = let (st', ok, _) = allow t st in (st', ok)
step st (success t) = (succeed st, false)
step st (failure t) = (fail t st, false)

-- The breaker after a sequence of calls, and how many requests they granted.
unfoldable pub run : BreakerState → List Event → BreakerState × ℕ
run st [] = (st, 0)
run st (e ∷ es) =
    let (st', ok) = step st e in
    let (last, granted) = run st' es in (last, if ok then suc granted else granted)

step-Inv : (st : BreakerState) (e : Event) → Inv st → Inv (step st e).0
unfolding step
step-Inv st (ask t) h = allow-Inv t st h
step-Inv st (success t) h = succeed-Inv st h
step-Inv st (failure t) h = fail-Inv t st h

run_keeps : (st : BreakerState) (es : List Event) → Inv st → Inv (run st es).0
unfolding run
run_keeps st [] h = h
run_keeps st (e ∷ es) h = run_keeps (step st e).0 es (step-Inv st e h)

-- Every breaker that is reached from a new one, by any calls at all, satisfies the invariant.
pub run-Inv : (es : List Event) → Inv (run initial es).0
run-Inv es = run_keeps initial es initial-Inv

-- The sequence of n failures, at the given times.
abbrev pub failures_at : List ℕ → List Event
failures_at [] = []
failures_at (t ∷ ts) = failure t ∷ failures_at ts

fail_below :
    (now : ℕ) (st : BreakerState)
    → st.state ≡ closed
    → st.failures + 1 < failure_threshold
    → fail now st ≡ record st { failures = st.failures + 1 }
unfolding fail
fail_below now st h k = ground arith

-- Failures with no success between them leave a closed breaker closed as long as it has counted
-- fewer of them than the threshold.
pub run_failures :
    (st : BreakerState) (ts : List ℕ)
    → st.state ≡ closed
    → st.failures + length ts < failure_threshold
    → run st (failures_at ts) ≡ (record st { failures = st.failures + length ts }, 0)
unfolding run step
run_failures st [] h k = ground arith
run_failures st (t ∷ ts) h k =
    ground (arith, fail_below t st h, run_failures (record st { failures = st.failures + 1 }) ts h)

-- The failure that reaches the threshold opens a closed breaker at its time.
pub opens_at_threshold :
    (st : BreakerState) (ts : List ℕ) (t : ℕ)
    → st.state ≡ closed
    → st.failures + length ts + 1 ≡ failure_threshold
    → let last = (step (run st (failures_at ts)).0 (failure t)).0 in
      (last.state ≡ opened) × (last.opened_at ≡ some t) × (last.failures ≡ failure_threshold)
unfolding step fail
opens_at_threshold st ts t h k = rw (run_failures st ts h (omega arith)) (ground arith)

-- A recorded success closes the breaker in every state, and forgets its failures and its probes.
pub success_closes : (st : BreakerState) → Inv st → succeed st ≡ initial
unfolding succeed
success_closes st h = ground arith

-- An event that reports no success.
abbrev pub IsNotSuccess : Event → Type 0
IsNotSuccess (success _) = ⊥
IsNotSuccess _ = Unit {0}

-- An open breaker refuses a request during the cooldown, and no failure reopens it.
step_open :
    (st : BreakerState) (e : Event) (t : ℕ)
    → st.state ≡ opened
    → st.opened_at ≡ some t
    → IsNotSuccess e
    → time e < t + open_cooldown_seconds * second
    → ((step st e).0.state ≡ opened) × ((step st e).0.opened_at ≡ some t) × ((step st e).1 ≡ false)
unfolding step allow fail
step_open st (ask now) t o since n early = ground arith
step_open st (success now) t o since n early = absurd n
step_open st (failure now) t o since n early = ground arith

-- Until the cooldown is over an open breaker grants nothing and stays open since the same time,
-- whatever requests and failures arrive, as long as no success is recorded.
pub run_open :
    (st : BreakerState) (es : List Event) (t : ℕ)
    → st.state ≡ opened
    → st.opened_at ≡ some t
    → All (λ e. IsNotSuccess e × (time e < t + open_cooldown_seconds * second)) es
    → ((run st es).0.state ≡ opened) × ((run st es).0.opened_at ≡ some t) × ((run st es).1 ≡ 0)
unfolding run
run_open st [] t o since h = (o, since, refl)
run_open st (e ∷ es) t o since h =
    let (o', since', refused) = step_open st e t o since h.0.0 h.0.1 in
    let (o'', since'', none_granted) = run_open (step st e).0 es t o' since' h.1 in
    (o'', since'', ground arith)

-- After the cooldown the next request is granted as a first probe; a failure of it opens the
-- breaker anew at the failure's time, and a success closes it.
pub probe_after_cooldown :
    (st : BreakerState) (opened_time now later : ℕ)
    → st.state ≡ opened
    → st.opened_at ≡ some opened_time
    → opened_time + open_cooldown_seconds * second ≤ now
    → let probed = (allow now st).0 in
      ((allow now st).1 ≡ true)
      × (probed.state ≡ half_open)
      × (probed.half_open_probes ≡ 1)
      × ((fail later probed).state ≡ opened)
      × ((fail later probed).opened_at ≡ some later)
      × (succeed probed ≡ initial)
unfolding allow fail succeed
probe_after_cooldown st opened_time now later o since cool =
    (ground arith, ground arith, ground arith, ground arith, ground arith, ground arith)
