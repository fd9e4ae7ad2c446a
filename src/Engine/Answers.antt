-- ===== src/Engine/Answers.antt =====
-- What a reconciliation keeps of its fetch
-- (affiliate-reconciliation-backend/app/services/reconciliation_engine.py and platform_fetcher.py).
use affiliate_platform.Config.{max_attempts}
use affiliate_platform.Classifier.{Reported}
use affiliate_platform.Prelude.{
  zero, suc, sym, Option-cases, ◌&&◌, Bool-cases, ℕ, ◌+◌, ◌≤◌, ◌≡◌, refl, ap, ◌∙◌, ◌⊎◌, inl, inr,
  Bool, true, false, not, Option, none, some, List, [], ◌∷◌, is_some, arith, String, All,
}
use affiliate_platform.Enums.{missing_platform_data}
use affiliate_platform.Breaker.{
  Reason, get, cooled_down, probe, Breakers, BreakerState, allow, allow_call,
}
use affiliate_platform.Fetcher.{
  denied, outcome_of, succeeded, fetch_loop, limited_after, record_call, is_final, Call, data_of,
  failed, call_adapter, without_function, missing_of, fetch, gave_up,
}
use affiliate_platform.Fetcher.Attempts.{fetch_outcome}
use affiliate_platform.Fetcher.Adapters.{fetch-call_adapter}
use affiliate_platform.Engine.{
  Session, Inputs, ReconciliationLog, FetchOutcome, reported, update_log, run_reconciliation,
}
use affiliate_platform.Engine.Runs.{unanswered_run, classification-missing}
use affiliate_platform.Engine.Fetches.{
  inputs_of, outcome_for, Surroundings, fetch_for, reconcile, reconcile_all,
}

-- A refusal has a reason.
allow-reason : (now : ℕ) (st : BreakerState) → is_some (allow now st).2 ≡ not (allow now st).1
unfolding allow cooled_down probe
allow-reason now st = ground arith

-- The metrics and the failure that an outcome shows to the engine: it names as missing exactly the
-- metrics that it does not have, it carries an error exactly if it has no metrics, and it is not
-- rate limited if it has some.
abbrev pub IsAccounted : FetchOutcome → Type 0
IsAccounted o =
    (o.partial_missing ≡ missing_of (reported o.platform_metrics))
    × (is_some o.error_code ≡ not (is_some o.platform_metrics))
    × (is_some o.error_message ≡ not (is_some o.platform_metrics))
    × ((is_some o.platform_metrics && o.rate_limited) ≡ false)

end-IsAccounted :
    (c : Call) (n : ℕ) (limited : Bool) → IsAccounted (outcome_for (outcome_of c n limited))
unfolding outcome_of succeeded gave_up missing_of reported outcome_for
end-IsAccounted (data_of r) n limited = (refl, refl, refl, refl)
end-IsAccounted (failed code message) n limited = (refl, refl, refl, refl)

denied-IsAccounted :
    (r : Option Reason) → is_some r ≡ true → IsAccounted (outcome_for (gave_up 0 (denied r) false))
unfolding gave_up missing_of reported outcome_for
denied-IsAccounted none h = cc
denied-IsAccounted (some r) h = (refl, refl, refl, refl)

module _ (calls : ℕ → Call) (clock : ℕ → ℕ) (platform : String) where
  loop-IsAccounted :
      (left attempts : ℕ) (limited : Bool) (bs : Breakers)
      → IsAccounted (outcome_for (fetch_loop calls clock platform left attempts limited bs).1)
  unfolding fetch_loop
  loop-IsAccounted zero attempts limited bs = end-IsAccounted _ _ _
  loop-IsAccounted (suc left) attempts limited bs =
      let c = calls (attempts + 1) in
      let ended = end-IsAccounted c (attempts + 1) (limited_after limited c) in
      let later =
        loop-IsAccounted left (attempts + 1) (limited_after limited c)
          (record_call platform (clock (attempts + 1)) c bs) in
      elim (Bool-cases (is_final c)) [ inl e ↦ rw e ended | inr e ↦ rw e later ]

  fetch-IsAccounted :
      (further : ℕ) (bs : Breakers)
      → IsAccounted (outcome_for (fetch calls clock platform further bs).1)
  unfolding fetch allow_call
  fetch-IsAccounted further bs =
      let st = get bs platform in
      let bs' = (allow_call bs (clock 0) platform).0 in
      elim (Bool-cases (allow (clock 0) st).1) [
        | inl e ↦ rw e (loop-IsAccounted further 0 false _)
        | inr e ↦ rw e (denied-IsAccounted _ (allow-reason (clock 0) st ∙ ap not e))
      ]

-- What a run logs of an answer. If it has metrics, the log has no error and is not rate limited. If
-- it has none, the log says that the data is missing and why, and the user, the post and the platform
-- reports are as before.
abbrev pub LogsAnswer : Session → Option Reported → Session → Type 0
LogsAnswer s metrics after =
    (log : ReconciliationLog) × (after.log ≡ some log)
    × (((r : Reported) × (metrics ≡ some r)
          × (log.error_code ≡ none)
          × (log.error_message ≡ none)
          × (log.rate_limited ≡ false))
        ⊎ ((metrics ≡ none)
            × (log.status ≡ missing_platform_data)
            × ((code : String) × (log.error_code ≡ some code))
            × ((message : String) × (log.error_message ≡ some message))
            × (after.user ≡ s.user)
            × (after.post ≡ s.post)
            × (after.platform_reports ≡ s.platform_reports)))

none_of : (o : Option String) → is_some o ≡ false → o ≡ none
none_of none h = refl
none_of (some a) h = cc

some_of : (o : Option String) → is_some o ≡ true → (a : String) × (o ≡ some a)
some_of none h = cc
some_of (some a) h = (a, refl)

run_reconciliation-LogsAnswer :
    (s : Session) (i : Inputs)
    → IsAccounted i.outcome
    → LogsAnswer s i.outcome.platform_metrics (run_reconciliation s i)
unfolding run_reconciliation update_log
run_reconciliation-LogsAnswer s i (listed, code, message, limited) =
    elim (Option-cases i.outcome.platform_metrics) [
      | inl e ↦
          let (user, post, reports, _) = unanswered_run s i e in
          (
            _,
            refl,
            inr (
              e,
              ap (λ r. r.status) (classification-missing s i e),
              some_of _ (code ∙ ap (λ o. not (is_some o)) e),
              some_of _ (message ∙ ap (λ o. not (is_some o)) e),
              user,
              post,
              reports,
            ),
          )
      | inr (r, e) ↦ (
        _,
        refl,
        inl (
          r,
          e,
          none_of _ (code ∙ ap (λ o. not (is_some o)) e),
          none_of _ (message ∙ ap (λ o. not (is_some o)) e),
          sym (ap (λ o. is_some o && i.outcome.rate_limited) e) ∙ limited,
        ),
      )
    ]

fetch_for-attempts :
    (platform : String) (bs : Breakers) (x : Surroundings)
    → (fetch_for platform bs x).1.attempts ≤ max_attempts
unfolding fetch_for gave_up
fetch_for-attempts platform bs x = elim (fetch_outcome x.calls x.clock platform 2 bs) [
  | inl (e, out) ↦ omega (arith, ap (λ o. o.attempts) out)
  | inr (e, (k, le, n, retried, ended)) ↦ omega (arith, n)
]

-- A run of a report whose post is on the platform makes at most the configured number of attempts
-- to fetch. If the fetch has metrics, the log has no error and is not rate limited. If it has none,
-- the log says that the data is missing, with an error code and a message, and the user, the post
-- and the platform reports are as before.
pub reconcile-LogsAnswer :
    (platform : String) (bs : Breakers) (s : Session) (x : Surroundings)
    → let fetched = (fetch_for platform bs x).1 in
      (fetched.attempts ≤ max_attempts)
      × LogsAnswer s fetched.platform_metrics (reconcile platform (bs, s) x).1
unfolding reconcile fetch_for inputs_of
reconcile-LogsAnswer platform bs s x = (
  fetch_for-attempts platform bs x,
  run_reconciliation-LogsAnswer s (inputs_of x _) (fetch-IsAccounted x.calls x.clock platform 2 bs),
)

-- The adapter's module has no function to call.
abbrev pub WithoutFunction : String → Surroundings → Type 0
WithoutFunction platform x = (n : ℕ) → x.calls n ≡ call_adapter platform without_function

-- For a platform whose adapter's module has no `fetch_post_metrics`, no sequence of runs changes the
-- user, the post or the platform reports, whatever the state of the breakers.
pub reconcile_all-WithoutFunction :
    (platform : String) (bs : Breakers) (s : Session) (xs : List Surroundings)
    → All (WithoutFunction platform) xs
    → let after = (reconcile_all platform (bs, s) xs).1 in
      (after.user ≡ s.user) × (after.post ≡ s.post) × (after.platform_reports ≡ s.platform_reports)
unfolding reconcile_all reconcile fetch_for outcome_for inputs_of
reconcile_all-WithoutFunction platform bs s [] h = (refl, refl, refl)
reconcile_all-WithoutFunction platform bs s (x ∷ xs) h =
    let (bs', fetched) = fetch x.calls x.clock platform 2 bs in
    let i = inputs_of x (outcome_for fetched) in
    let (user, post, reports, _) =
      unanswered_run s i (fetch-call_adapter x.calls x.clock platform 2 bs h.0) in
    let (user', post', reports') =
      reconcile_all-WithoutFunction platform bs' (run_reconciliation s i) xs h.1 in
    (user' ∙ user, post' ∙ post, reports' ∙ reports)
