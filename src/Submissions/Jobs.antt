-- ===== src/Submissions/Jobs.antt =====
-- The job that a stored report gets (affiliate-reconciliation-backend/app/api/v1/endpoints/submissions.py
-- with affiliate-reconciliation-backend/app/jobs/queue.py).
use affiliate_platform.Prelude.{
  max_ℤ, none, [], le→leb, leb, ◌≤◌, ◌⊎◌, Option, true, some, inr, ◌<◌, Bool-cases, false, inl,
  arith, ◌∷◌, ◌+◌, length, List, Bool, ℕ, ◌≡◌, refl,
}
use affiliate_platform.Trust.{compute_priority, Label}
use affiliate_platform.Quality.{Flag}
use affiliate_platform.Tables.{IsIn, User}
use affiliate_platform.Submissions.{
  job_priority, has_flags, trust_or_half, enqueue_report, ReconciliationJob,
}
use affiliate_platform.Trust.Priorities.{rank, lookup-label_text}
use affiliate_platform.Config.{priorities}
use affiliate_platform.JobQueue.{
  ready_before, make_item, push_item, enqueue, PriorityDelayQueue, QueueItem, depth, heappush,
}

-- A queue that takes jobs.
abbrev pub IsAccepting : PriorityDelayQueue ReconciliationJob → Type 0
IsAccepting q =
    (q.is_shutdown ≡ false) × (depth q < q.max_in_memory) × (q.priority_map ≡ priorities)

abbrev pub score_label : User → List Flag → Label
score_label user flags = compute_priority (trust_or_half user.trust_score) (has_flags flags)

-- A queue behind which one more job is ready.
abbrev pub HasJob :
    PriorityDelayQueue ReconciliationJob
    → ℕ
    → User
    → List Flag
    → Option (PriorityDelayQueue ReconciliationJob)
    → Type 0
HasJob q report_id user flags none = ⊥
HasJob q report_id user flags (some q') =
    (item : QueueItem ReconciliationJob) × IsIn item q'.ready_heap
    × (item.job.affiliate_report_id ≡ report_id)
    × (item.priority_value ≡ rank (score_label user flags))
    × (depth q' ≡ depth q + 1)

IsIn-heappush : {A : Type 0} → (lt : A → A → Bool) (x : A) (l : List A) → IsIn x (heappush lt x l)
unfolding heappush
IsIn-heappush lt x [] = inl refl
IsIn-heappush lt x (y ∷ l) = elim (Bool-cases (lt x y)) [
  | inl e ↦ rw e (inl refl)
  | inr e ↦ rw e (inr (IsIn-heappush lt x l))
]

length-heappush :
    {A : Type 0}
    → (lt : A → A → Bool) (x : A) (l : List A) → length (heappush lt x l) ≡ length l + 1
unfolding heappush
length-heappush lt x [] = refl
length-heappush lt x (y ∷ l) = ground (arith, length-heappush lt x l)

HasJob-push_item :
    (q : PriorityDelayQueue ReconciliationJob) (now : ℕ) (item : QueueItem ReconciliationJob)
    (report_id : ℕ) (user : User) (flags : List Flag)
    → item.job.affiliate_report_id ≡ report_id
    → item.priority_value ≡ rank (score_label user flags)
    → item.ready_at ≤ now
    → HasJob q report_id user flags (some (push_item q now item))
unfolding push_item depth
HasJob-push_item q now item report_id user flags e f h =
    let due : leb item.ready_at now ≡ true = le→leb item.ready_at now h in
    let size = length-heappush ready_before item q.ready_heap in
    rw due (item, IsIn-heappush ready_before item q.ready_heap, e, f, omega (arith, size))

-- With a queue that takes jobs, a stored report has a job that is ready at once, at the rank of the
-- user's trust and the report's flags.
pub enqueue_report-HasJob :
    (q : PriorityDelayQueue ReconciliationJob) (now : ℕ) (user : User) (report_id : ℕ)
    (flags : List Flag)
    → IsAccepting q
    → HasJob q report_id user flags (enqueue_report (some q) now user report_id flags)
unfolding enqueue_report enqueue job_priority push_item make_item depth max_ℤ
enqueue_report-HasJob q now user report_id flags h =
    let room : leb q.max_in_memory (depth q) ≡ false = ground (arith, h.1) in
    rw (h.0, room, h.2, lookup-label_text (score_label user flags))
      (HasJob-push_item q now _ report_id user flags refl refl (omega arith))

-- Otherwise the queue is left as it is, and the report stays without a job.
pub enqueue_report-refused :
    (q : PriorityDelayQueue ReconciliationJob) (now : ℕ) (user : User) (report_id : ℕ)
    (flags : List Flag)
    → (q.is_shutdown ≡ true) ⊎ (q.max_in_memory ≤ depth q)
    → enqueue_report (some q) now user report_id flags ≡ some q
unfolding enqueue_report enqueue
enqueue_report-refused q now user report_id flags h = ground arith
