-- ===== src/Worker/Examples.antt =====
-- Tests and examples on the worker.
use affiliate_platform.Worker.{loop, Pass}
use affiliate_platform.JobQueue.Blocking.{Turn}
use affiliate_platform.Submissions.{ReconciliationJob}
use affiliate_platform.Prelude.{
  false, [], ◌∷◌, some, none, ◌==◌, if◌then◌else◌, Option, List, ℕ, ◌≡◌, refl,
}
use affiliate_platform.JobQueue.{QueueItem, new_queue}
use affiliate_platform.Worker.Liveness.{working, loop-run_reports}

-- A database that keeps the reports that were run; the run of report 2 raises.
abbrev run : List ℕ → ℕ → Option (List ℕ)
run s n = if n == 2 then none else some (n ∷ s)

abbrev item : ℕ → QueueItem ReconciliationJob
item n = record {
  job = record { affiliate_report_id = n; priority = "normal" };
  priority_label = "normal";
  priority_value = 5;
  enqueued_at = 0;
  ready_at = 0;
  seq = n;
}

abbrev pass : Pass
pass = record {
  end_time = 9;
  turns = record { now = 4; check_time = 4; wait_time = 4; meanwhile = λ q. q } ∷ [];
  stop_requested = false;
}

abbrev turn_of :
    (t : Turn ReconciliationJob) × (ts : List (Turn ReconciliationJob)) × (pass.turns ≡ t ∷ ts)
turn_of = (record { now = 4; check_time = 4; wait_time = 4; meanwhile = λ q. q }, [], refl)

loop-run_reports_example :
    loop run
      (working run new_queue ([], []) (item 1 ∷ item 2 ∷ item 3 ∷ []))
      (pass ∷ pass ∷ pass ∷ [])
    ≡ working run new_queue (3 ∷ 1 ∷ [], 2 ∷ []) []
loop-run_reports_example =
    loop-run_reports run new_queue ([], []) (item 1 ∷ item 2 ∷ item 3 ∷ [])
      (pass ∷ pass ∷ pass ∷ []) (refl, turn_of, (refl, turn_of, (refl, turn_of, tt))) refl
