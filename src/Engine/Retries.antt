-- ===== src/Engine/Retries.antt =====
-- When another attempt is scheduled, and that attempts come to an end
-- (affiliate-reconciliation-backend/app/services/reconciliation_engine.py).
use affiliate_platform.Config.{minute, hour}
use affiliate_platform.Prelude.{
  ℕ, ◌+◌, ◌-◌, ◌*◌, ◌≤◌, ◌<◌, max, ◌≡◌, refl, ap, ◌≢◌, ◌⊎◌, inl, inr, Option, none, some, List, [],
  ◌∷◌, arith, ltb, leb, leb→le, not_leb, Bool-cases, length,
}
use affiliate_platform.Enums.{
  ReconciliationStatus, matched, discrepancy_low, discrepancy_medium, discrepancy_high,
  affiliate_overclaimed, missing_platform_data, incomplete_platform_data, unverifiable,
  skipped_suspended,
}
use affiliate_platform.Engine.{
  classification, Session, Inputs, ReconciliationLog, schedule_retry, ensure_log, update_log,
  run_reconciliation, run_all,
}

-- When a retry is scheduled, and for when: without data up to the fourth attempt and for a day after
-- the submission, with partial data after the first and the second attempt.
abbrev pub RetryMeans : ReconciliationStatus → ℕ → ℕ → ℕ → Option ℕ → Type 0
RetryMeans status attempt_count submitted_at now (some at) =
    ((status ≡ missing_platform_data)
      × (attempt_count < 5)
      × (now ≤ submitted_at + 24 * hour)
      × (at ≡ now + 30 * max 1 attempt_count * minute))
    ⊎ ((status ≡ incomplete_platform_data) × (attempt_count ≤ 2) × (at ≡ now + 15 * minute))
RetryMeans status attempt_count submitted_at now none =
    ((status ≢ missing_platform_data) ⊎ (5 ≤ attempt_count) ⊎ (submitted_at + 24 * hour < now))
    × ((status ≢ incomplete_platform_data) ⊎ (2 < attempt_count))

missing_retry :
    (attempt_count submitted_at now : ℕ)
    → RetryMeans missing_platform_data attempt_count submitted_at now
        (schedule_retry missing_platform_data attempt_count submitted_at now)
unfolding schedule_retry
missing_retry attempt_count submitted_at now = elim (Bool-cases (leb 5 attempt_count)) [
  | inl e ↦ rw e (inr (inl (leb→le 5 _ e)), inl (λ f. cc))
  | inr e ↦ rw e (elim (Bool-cases (ltb (24 * hour) (now - submitted_at))) [
    | inl f ↦ rw f (inr (inr (ground (arith, f))), inl (λ g. cc))
    | inr f ↦ rw f (inl (refl, not_leb 5 _ e, ground (arith, f), refl))
  ])
]

incomplete_retry :
    (attempt_count submitted_at now : ℕ)
    → RetryMeans incomplete_platform_data attempt_count submitted_at now
        (schedule_retry incomplete_platform_data attempt_count submitted_at now)
unfolding schedule_retry
incomplete_retry attempt_count submitted_at now = elim (Bool-cases (leb attempt_count 2)) [
  | inl e ↦ rw e (inr (refl, leb→le _ 2 e, refl))
  | inr e ↦ rw e (inl (λ f. cc), inr (not_leb _ 2 e))
]

-- A retry is scheduled for missing data up to the fourth attempt and for a day after the
-- submission, 30 minutes times the number of attempts later, and for incomplete data after the
-- first and the second attempt, 15 minutes later; in every other case there is none.
pub schedule_retry-RetryMeans :
    (status : ReconciliationStatus) (attempt_count submitted_at now : ℕ)
    → RetryMeans status attempt_count submitted_at now
        (schedule_retry status attempt_count submitted_at now)
unfolding schedule_retry
schedule_retry-RetryMeans missing_platform_data a s now = missing_retry a s now
schedule_retry-RetryMeans incomplete_platform_data a s now = incomplete_retry a s now
schedule_retry-RetryMeans matched a s now = (inl (λ f. cc), inl (λ f. cc))
schedule_retry-RetryMeans discrepancy_low a s now = (inl (λ f. cc), inl (λ f. cc))
schedule_retry-RetryMeans discrepancy_medium a s now = (inl (λ f. cc), inl (λ f. cc))
schedule_retry-RetryMeans discrepancy_high a s now = (inl (λ f. cc), inl (λ f. cc))
schedule_retry-RetryMeans affiliate_overclaimed a s now = (inl (λ f. cc), inl (λ f. cc))
schedule_retry-RetryMeans unverifiable a s now = (inl (λ f. cc), inl (λ f. cc))
schedule_retry-RetryMeans skipped_suspended a s now = (inl (λ f. cc), inl (λ f. cc))

-- The number of attempts that the log of a session counts.
abbrev pub attempts : Option ReconciliationLog → ℕ
attempts none = 0
attempts (some log) = log.attempt_count

-- The retry that the log of a session has scheduled.
abbrev pub scheduled : Option ReconciliationLog → Option ℕ
scheduled none = none
scheduled (some log) = log.scheduled_retry_at

ensure_log-attempts :
    (log : Option ReconciliationLog) (new_id : ℕ)
    → (ensure_log log new_id).attempt_count ≡ attempts log
unfolding ensure_log
ensure_log-attempts none new_id = refl
ensure_log-attempts (some log) new_id = refl

run_reconciliation-attempts :
    (s : Session) (inputs : Inputs)
    → attempts (run_reconciliation s inputs).log ≡ attempts s.log + 1
unfolding run_reconciliation update_log
run_reconciliation-attempts s inputs = ap (λ n. n + 1) (ensure_log-attempts s.log inputs.new_log_id)

run_all-attempts :
    (s : Session) (runs : List Inputs)
    → attempts (run_all s runs).log ≡ attempts s.log + length runs
unfolding run_all
run_all-attempts s [] = omega arith
run_all-attempts s (inputs ∷ runs) = omega (
  arith,
  run_all-attempts (run_reconciliation s inputs) runs,
  run_reconciliation-attempts s inputs,
)

late_is_last :
    (status : ReconciliationStatus) (attempt_count submitted_at now : ℕ) (r : Option ℕ)
    → 5 ≤ attempt_count
    → RetryMeans status attempt_count submitted_at now r
    → r ≡ none
late_is_last status a s now none h means = refl
late_is_last status a s now (some at) h means = elim means [
  | inl (_, lt, _, _) ↦ absurd (omega arith)
  | inr (_, le, _) ↦ absurd (omega arith)
]

-- Attempts come to an end: once four have been made, the next one schedules no other, whatever the
-- platform answers in any of them.
pub attempts_end :
    (s : Session) (runs : List Inputs) (last : Inputs)
    → 4 ≤ attempts s.log + length runs
    → scheduled (run_reconciliation (run_all s runs) last).log ≡ none
unfolding run_reconciliation update_log
attempts_end s runs last h =
    let t = run_all s runs in
    let n : 5 ≤ (ensure_log t.log last.new_log_id).attempt_count + 1 =
      omega (arith, ensure_log-attempts t.log last.new_log_id, run_all-attempts s runs) in
    let status = (classification t last).status in
    let count = (ensure_log t.log last.new_log_id).attempt_count + 1 in
    late_is_last status count t.submitted_at last.now _ n
      (schedule_retry-RetryMeans status count t.submitted_at last.now)
