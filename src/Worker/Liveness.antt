-- ===== src/Worker/Liveness.antt =====
-- What becomes of the jobs that are ready
-- (affiliate-reconciliation-backend/app/jobs/worker_reconciliation.py).
use affiliate_platform.Prelude.{
  ◌==◌, inr, Bool-cases, inl, true, arith, length, none, ◌++◌, some, [], false, ◌∷◌, Option, List,
  ℕ, ◌≡◌,
}
use affiliate_platform.Submissions.{ReconciliationJob}
use affiliate_platform.JobQueue.{
  depth, take_first, promote_items, promote_scheduled, dequeue_round, PriorityDelayQueue, QueueItem,
}
use affiliate_platform.JobQueue.Blocking.{dequeue, Turn}
use mathlib.Core.Path.{refl}
use affiliate_platform.Worker.{processed, ReconciliationWorker, loop, process, Pass}

-- The reports of the items of a queue.
abbrev pub reports_of : List (QueueItem ReconciliationJob) → List ℕ
reports_of [] = []
reports_of (i ∷ items) = i.job.affiliate_report_id ∷ reports_of items

-- Passes of which none asks to stop and each has a round.
abbrev pub IsRunning : List Pass → Type 0
IsRunning [] = Unit
IsRunning (p ∷ passes) =
    (p.stop_requested ≡ false)
    × ((t : Turn ReconciliationJob) × (ts : List (Turn ReconciliationJob)) × (p.turns ≡ t ∷ ts))
    × IsRunning passes

-- A queue with some ready items and nothing scheduled.
abbrev pub ready_queue :
    PriorityDelayQueue ReconciliationJob
    → List (QueueItem ReconciliationJob)
    → PriorityDelayQueue ReconciliationJob
ready_queue q items = record q { ready_heap = items; scheduled_heap = [] }

dequeue-ready :
    (q : PriorityDelayQueue ReconciliationJob) (item : QueueItem ReconciliationJob)
    (items : List (QueueItem ReconciliationJob)) (end_time : Option ℕ) (t : Turn ReconciliationJob)
    (ts : List (Turn ReconciliationJob))
    → dequeue (ready_queue q (item ∷ items)) true end_time (t ∷ ts)
      ≡ some (ready_queue q items, some item.job)
unfolding dequeue dequeue_round promote_scheduled promote_items take_first depth
dequeue-ready q item items end_time t ts =
    let full : (depth (ready_queue q (item ∷ items)) == 0) ≡ false = ground arith in
    elim (Bool-cases q.is_shutdown) [ inl e ↦ rw (e, full) | inr e ↦ rw e ]

module _ {S : Type 0} (run : S → ℕ → Option S) where
  -- A worker that runs, with some jobs ready.
  abbrev pub working :
      PriorityDelayQueue ReconciliationJob
      → S × List ℕ
      → List (QueueItem ReconciliationJob)
      → ReconciliationWorker S
  working q (s, failed) items = record {
    queue = ready_queue q items;
    stopped = false;
    database = s;
    last_exceptions = failed;
  }

  -- One job: the run that is made or noted.
  abbrev pub outcome_of : S × List ℕ → ℕ → Option S → S × List ℕ
  outcome_of (s, failed) n (some t) = (t, failed)
  outcome_of (s, failed) n none = (s, failed ++ (n ∷ []))

  abbrev pub run_one : S × List ℕ → ℕ → S × List ℕ
  run_one d n = outcome_of d n (run d.0 n)

  processed-outcome_of :
      (q : PriorityDelayQueue ReconciliationJob) (d : S × List ℕ) (n : ℕ)
      (items : List (QueueItem ReconciliationJob)) (o : Option S)
      → processed (working q d items) n o ≡ working q (outcome_of d n o) items
  processed-outcome_of q (s, failed) n items none = refl
  processed-outcome_of q (s, failed) n items (some t) = refl

  process-run_one :
      (q : PriorityDelayQueue ReconciliationJob) (d : S × List ℕ) (n : ℕ)
      (items : List (QueueItem ReconciliationJob))
      → process run (working q d items) n ≡ working q (run_one d n) items
  unfolding process
  process-run_one q d n items = processed-outcome_of q d n items (run d.0 n)

  -- The runs of some reports one after the other, with the reports whose run raised.
  abbrev pub run_reports : S × List ℕ → List ℕ → S × List ℕ
  run_reports d [] = d
  run_reports d (n ∷ reports) = run_reports (run_one d n) reports

  -- With nothing scheduled, and while nobody asks the worker to stop and nobody puts in another job
  -- between its passes, as many passes of its loop as there are ready jobs run all of them, once each
  -- and in the order of the queue, and leave none behind: the database and the noted exceptions are
  -- those of the runs one after the other, of which any may raise.
  pub loop-run_reports :
      (q : PriorityDelayQueue ReconciliationJob) (d : S × List ℕ)
      (items : List (QueueItem ReconciliationJob)) (passes : List Pass)
      → IsRunning passes
      → length passes ≡ length items
      → loop run (working q d items) passes ≡ working q (run_reports d (reports_of items)) []
  unfolding loop
  loop-run_reports q d [] [] h e = refl
  loop-run_reports q d [] (p ∷ passes) h e = absurd (omega (arith, e))
  loop-run_reports q d (i ∷ items) [] h e = absurd (omega (arith, e))
  loop-run_reports q d (i ∷ items) (p ∷ passes) (r, (t, ts, m), hs) e =
      rw
        (
          r,
          m,
          dequeue-ready q i items (some p.end_time) t ts,
          process-run_one q d i.job.affiliate_report_id items,
        )
        (loop-run_reports q (run_one d i.job.affiliate_report_id) items passes hs
          (omega (arith, e)))
