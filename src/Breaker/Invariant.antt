-- ===== src/Breaker/Invariant.antt =====
-- What holds of every breaker between two calls, and what a call does to the other platforms
-- (affiliate-reconciliation-backend/app/utils/circuit_breaker.py).
use affiliate_platform.Config.{failure_threshold, half_open_probe_count}
use affiliate_platform.Prelude.{
  ℕ, ◌≤◌, ◌<◌, ◌≡◌, ◌≢◌, none, String, arith, insert, lookup-insert, same_iff, same, inl, inr,
  Bool-cases, if◌then◌else◌,
}
use affiliate_platform.Breaker.{
  BreakerState, Breakers, closed, half_open, initial, get, allow, succeed, fail, allow_call,
  record_success, record_failure,
}

-- A closed breaker is below the failure threshold and has no leftover of an earlier opening; an
-- open or half-open one knows when it opened; probes never pass their limit, and a half-open
-- breaker has let at least one through.
pub record Inv (st : BreakerState) : Type 0 where
  pub closed_below : st.state ≡ closed → st.failures < failure_threshold
  pub closed_fresh : st.state ≡ closed → (st.opened_at ≡ none) × (st.half_open_probes ≡ 0)
  pub opened_since : st.state ≢ closed → st.opened_at ≢ none
  pub probes_capped : st.half_open_probes ≤ half_open_probe_count
  pub probing : st.state ≡ half_open → 0 < st.half_open_probes

pub initial-Inv : Inv initial
initial-Inv = ground arith

pub allow-Inv : (now : ℕ) (st : BreakerState) → Inv st → Inv (allow now st).0
unfolding allow
allow-Inv now st h = ground arith

pub succeed-Inv : (st : BreakerState) → Inv st → Inv (succeed st)
unfolding succeed
succeed-Inv st h = ground arith

pub fail-Inv : (now : ℕ) (st : BreakerState) → Inv st → Inv (fail now st)
unfolding fail
fail-Inv now st h = ground arith

-- Every platform's breaker satisfies the invariant.
abbrev pub AllInv : Breakers → Type 0
AllInv bs = (platform : String) → Inv (get bs platform)

pub get-insert :
    (bs : Breakers) (platform p : String) (st : BreakerState)
    → get (insert platform st bs) p ≡ (if same platform p then st else get bs p)
unfolding get
get-insert bs platform p st = ground (arith, lookup-insert platform p st bs)

insert-AllInv :
    (bs : Breakers) (platform : String) (st : BreakerState)
    → AllInv bs
    → Inv st
    → AllInv (insert platform st bs)
insert-AllInv bs platform st h k p = elim (Bool-cases (same platform p)) [
  | inl e ↦ rw (get-insert bs platform p st, e) k
  | inr e ↦ rw (get-insert bs platform p st, e) (h p)
]

-- If every platform's breaker satisfies the invariant, it does so after any call: a closed one is
-- below the failure threshold with no leftover of an earlier opening, another one knows when it
-- opened, and no more probes are counted than are allowed.
pub calls-AllInv :
    (bs : Breakers) (now : ℕ) (platform : String)
    → AllInv bs
    → AllInv (allow_call bs now platform).0
      × AllInv (record_success bs platform)
      × AllInv (record_failure bs now platform)
unfolding allow_call record_success record_failure
calls-AllInv bs now platform h = (
  insert-AllInv bs platform (allow now (get bs platform)).0 h (allow-Inv now _ (h platform)),
  insert-AllInv bs platform (succeed (get bs platform)) h (succeed-Inv _ (h platform)),
  insert-AllInv bs platform (fail now (get bs platform)) h (fail-Inv now _ (h platform)),
)

get-insert_ne :
    (bs : Breakers) (platform p : String) (st : BreakerState)
    → platform ≢ p
    → get (insert platform st bs) p ≡ get bs p
get-insert_ne bs platform p st ne = ground (arith, get-insert bs platform p st, same_iff platform p)

-- A call for one platform leaves every other platform's breaker as it was.
pub calls_frame :
    (bs : Breakers) (now : ℕ) (platform p : String)
    → platform ≢ p
    → (get (allow_call bs now platform).0 p ≡ get bs p)
      × (get (record_success bs platform) p ≡ get bs p)
      × (get (record_failure bs now platform) p ≡ get bs p)
unfolding allow_call record_success record_failure
calls_frame bs now platform p ne = (
  get-insert_ne bs platform p _ ne,
  get-insert_ne bs platform p _ ne,
  get-insert_ne bs platform p _ ne,
)
