-- ===== src/Engine/Runs.antt =====
-- What one run and a sequence of runs leave behind
-- (affiliate-reconciliation-backend/app/services/reconciliation_engine.py).
use affiliate_platform.Prelude.{
  ℕ, ◌≡◌, refl, ap, ◌∙◌, Bool, true, false, not, ◌&&◌, ◌||◌, Option, none, some, List, [], ◌∷◌,
  is_some, ℤ, pos, negsuc, ◌+ℤ◌, max_ℤ, min_ℤ, ◌==◌, ◌-◌, ◌≤◌, if◌then◌else◌, arith, zero, suc,
}
use affiliate_platform.Enums.{
  ReconciliationStatus, matched, discrepancy_low, discrepancy_medium, discrepancy_high,
  affiliate_overclaimed, missing_platform_data, incomplete_platform_data, unverifiable,
  skipped_suspended,
}
use affiliate_platform.Trust.{TrustEvent, overclaim, apply_trust_event, event_delta}
use affiliate_platform.Config.{min_score, max_score}
use affiliate_platform.Trust.Scores.{InScale, apply_trust_event_bounds}
use affiliate_platform.Classifier.{classify, fully_missing}
use affiliate_platform.Alerting.Escalation.{OnePerLog, maybe_create_alert-OnePerLog}
use affiliate_platform.Engine.{
  Session, Inputs, User, ReconciliationLog, schedule_retry, nonzero, is_terminal, current_trust,
  score_user, reported, classification, platform_report, update_log, run_reconciliation, run_all,
}

-- No sequence of runs gives a log more than one alert, if none had more before.
pub run_all-OnePerLog :
    (s : Session) (runs : List Inputs) → OnePerLog s.alerts → OnePerLog (run_all s runs).alerts
unfolding run_all run_reconciliation
run_all-OnePerLog s [] h = h
run_all-OnePerLog s (inputs ∷ runs) h =
    run_all-OnePerLog (run_reconciliation s inputs) runs
      (maybe_create_alert-OnePerLog s.alerts _ _ inputs.now inputs.db_now h)

-- A score that is set is on the scale.
abbrev pub ScoreInScale : Option ℤ → Type 0
ScoreInScale none = Unit
ScoreInScale (some score) = InScale score

score_user-ScoreInScale :
    (user : User) (now : ℕ) (event : Option TrustEvent)
    → ScoreInScale user.trust_score
    → ScoreInScale (score_user user now event).0.trust_score
unfolding score_user
score_user-ScoreInScale user now none h = h
score_user-ScoreInScale user now (some event) h =
    (apply_trust_event_bounds (current_trust user.trust_score) event).0

-- No sequence of runs takes the user's trust score off the scale, if it was on it or unset before.
pub run_all-ScoreInScale :
    (s : Session) (runs : List Inputs)
    → ScoreInScale s.user.trust_score
    → ScoreInScale (run_all s runs).user.trust_score
unfolding run_all run_reconciliation
run_all-ScoreInScale s [] h = h
run_all-ScoreInScale s (inputs ∷ runs) h =
    run_all-ScoreInScale (run_reconciliation s inputs) runs
      (score_user-ScoreInScale s.user inputs.now _ h)

terminal_settles :
    (status : ReconciliationStatus) (attempt_count submitted_at now : ℕ)
    → (is_terminal status && not (is_some (schedule_retry status attempt_count submitted_at now)))
      ≡ is_terminal status
unfolding schedule_retry
terminal_settles missing_platform_data a s now = refl
terminal_settles incomplete_platform_data a s now = refl
terminal_settles matched a s now = refl
terminal_settles discrepancy_low a s now = refl
terminal_settles discrepancy_medium a s now = refl
terminal_settles discrepancy_high a s now = refl
terminal_settles affiliate_overclaimed a s now = refl
terminal_settles unverifiable a s now = refl
terminal_settles skipped_suspended a s now = refl

-- A run marks the post as reconciled exactly if it was before or the status is matched, overclaimed
-- or a high discrepancy.
pub run_reconciliation-is_terminal :
    (s : Session) (inputs : Inputs)
    → (run_reconciliation s inputs).post.is_reconciled
      ≡ (s.post.is_reconciled || is_terminal (classification s inputs).status)
unfolding run_reconciliation update_log
run_reconciliation-is_terminal s inputs =
    ap (λ b. s.post.is_reconciled || b) (terminal_settles (classification s inputs).status _ _ _)

-- What an overclaim leaves of a score.
abbrev pub after_overclaim : ℕ → ℕ
after_overclaim v = if v == 0 then 40 else v - 10

-- Ten less, on the scale.
ten_less : (v : ℕ) → v ≤ 100 → max_ℤ min_score (min_ℤ (pos v +ℤ negsuc 9) max_score) ≡ pos (v - 10)
unfolding max_ℤ min_ℤ ◌+ℤ◌
ten_less v b = ground arith

overclaimed_score :
    (user : User) (now v : ℕ)
    → user.trust_score ≡ some (pos v)
    → v ≤ 100
    → (score_user user now (some overclaim)).0.trust_score ≡ some (pos (after_overclaim v))
unfolding score_user current_trust apply_trust_event event_delta
overclaimed_score user now zero h b = rw (h, ten_less 50 (omega arith)) refl
overclaimed_score user now (suc v) h b =
    let set : (suc v == 0) ≡ false = ground arith in rw (h, ten_less (suc v) b, set) refl

-- An overclaim takes ten hundredths from a trust score on the scale, down to 0 at the least; but a
-- score of 0 it sets to 0.40.
pub run_reconciliation-after_overclaim :
    (s : Session) (inputs : Inputs) (v : ℕ)
    → s.user.trust_score ≡ some (pos v)
    → v ≤ 100
    → (classification s inputs).trust_event ≡ some overclaim
    → (run_reconciliation s inputs).user.trust_score ≡ some (pos (after_overclaim v))
unfolding run_reconciliation
run_reconciliation-after_overclaim s inputs v h b k =
    ap (λ e. (score_user s.user inputs.now e).0.trust_score) k
    ∙ overclaimed_score s.user inputs.now v h b

pub classification-missing :
    (s : Session) (inputs : Inputs)
    → inputs.outcome.platform_metrics ≡ none
    → classification s inputs ≡ fully_missing
unfolding classification reported classify
classification-missing s inputs h = simp h refl

platform_report-missing :
    (s : Session) (inputs : Inputs)
    → inputs.outcome.platform_metrics ≡ none
    → platform_report s.post inputs.new_report_id (reported inputs.outcome.platform_metrics) ≡ none
unfolding platform_report reported
platform_report-missing s inputs h = simp h refl

or_false : (b : Bool) → (b || false) ≡ b
or_false true = refl
or_false false = refl

-- When the platform has not answered, the run leaves the user, the post and the platform reports as
-- they were, and logs that the data is missing, with the reason that the fetcher gave.
pub unanswered_run :
    (s : Session) (inputs : Inputs)
    → inputs.outcome.platform_metrics ≡ none
    → let after = run_reconciliation s inputs in
      (after.user ≡ s.user)
      × (after.post ≡ s.post)
      × (after.platform_reports ≡ s.platform_reports)
      × ((log : ReconciliationLog) × (after.log ≡ some log)
          × (log.status ≡ missing_platform_data)
          × (log.trust_delta ≡ none)
          × (log.error_code ≡ inputs.outcome.error_code)
          × (log.error_message ≡ inputs.outcome.error_message)
          × (log.rate_limited ≡ inputs.outcome.rate_limited))
unfolding run_reconciliation update_log score_user
unanswered_run s inputs h =
    let e = classification-missing s inputs h in
    let settled =
      run_reconciliation-is_terminal s inputs
      ∙ ap (λ r. s.post.is_reconciled || is_terminal r.status) e
      ∙ or_false s.post.is_reconciled in
    (
      ap (λ r. (score_user s.user inputs.now r.trust_event).0) e,
      ap (λ b. record s.post { is_reconciled = b }) settled,
      ap (λ o. elim o [ none ↦ s.platform_reports | some r ↦ r ∷ s.platform_reports ])
          (platform_report-missing s inputs h),
      (
        _,
        refl,
        ap (λ r. r.status) e,
        ap (λ r. nonzero (score_user s.user inputs.now r.trust_event).1) e,
        refl,
        refl,
        refl,
      ),
    )
