-- ===== src/Worker.antt =====
-- The background worker (affiliate-reconciliation-backend/app/jobs/worker_reconciliation.py) on the
-- in-memory queue. The database is a state S, and `run` is `run_reconciliation` on it, with none for
-- an exception.
pub mod Liveness
mod Examples
use affiliate_platform.Prelude.{
  none, false, [], ◌++◌, some, if◌then◌else◌, ◌∷◌, Option, true, List, Bool, ℕ, ◌≡◌, refl,
}
use affiliate_platform.Submissions.{ReconciliationJob}
use affiliate_platform.JobQueue.{PriorityDelayQueue}
use affiliate_platform.JobQueue.Blocking.{Turn, dequeue}

pub record ReconciliationWorker (S : Type 0) : Type 0 where
  pub queue : PriorityDelayQueue ReconciliationJob
  pub stopped : Bool
  pub database : S
  pub last_exceptions : List ℕ

-- One pass of the loop: the end of the time that `dequeue` is given, the rounds that it takes, and
-- whether another thread asks the worker to stop meanwhile.
pub record Pass : Type 0 where
  pub end_time : ℕ
  pub turns : List (Turn ReconciliationJob)
  pub stop_requested : Bool

module _ {S : Type 0} where
  -- `stop`.
  unfoldable pub stop : ReconciliationWorker S → ReconciliationWorker S
  stop w = record w { stopped = true }

  -- `_process`: what `run_reconciliation` does, or its exception, noted.
  abbrev pub processed : ReconciliationWorker S → ℕ → Option S → ReconciliationWorker S
  processed w report_id (some database) = record w { database = database }
  processed w report_id none = record w { last_exceptions = w.last_exceptions ++ (report_id ∷ []) }

  unfoldable pub process : (S → ℕ → Option S) → ReconciliationWorker S → ℕ → ReconciliationWorker S
  process run w report_id = processed w report_id (run w.database report_id)

  -- What the loop does with the answer of `dequeue`; without one the call has not returned.
  unfoldable pub handle :
      (S → ℕ → Option S)
      → ReconciliationWorker S
      → Option (PriorityDelayQueue ReconciliationJob × Option ReconciliationJob)
      → ReconciliationWorker S
  unfolding process
  handle run w none = w
  handle run w (some (q, none)) = record w { queue = q }
  handle run w (some (q, some job)) = process run (record w { queue = q }) job.affiliate_report_id

  abbrev pub with_request : Bool → ReconciliationWorker S → ReconciliationWorker S
  with_request true w = record w { stopped = true }
  with_request false w = w

  -- `_loop`.
  unfoldable pub loop :
      (S → ℕ → Option S) → ReconciliationWorker S → List Pass → ReconciliationWorker S
  unfolding handle dequeue
  loop run w [] = w
  loop run w (p ∷ passes) =
      if w.stopped
      then w
      else loop run
          (with_request p.stop_requested
            (handle run w (dequeue w.queue true (some p.end_time) p.turns)))
          passes
