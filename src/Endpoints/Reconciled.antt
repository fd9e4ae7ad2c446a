-- ===== src/Endpoints/Reconciled.antt =====
-- Which reports `trigger_reconciliation` enqueues
-- (affiliate-reconciliation-backend/app/api/v1/endpoints/reconciliation.py).
use mathlib.Core.List.{Perm}
use mathlib.Core.List.Perm
use affiliate_platform.Enums.{client, admin}
use affiliate_platform.Prelude.{
  false, arith, inr, [], All-append, none, inl, ◌&&◌, Bool-cases, Option-cases, some, ◌∷◌, true,
  All, not, ◌||◌, Option, List, ℕ, ◌≡◌, ◌++◌, map, pos, refl, ap, String,
}
use affiliate_platform.Tables.{
  Refusal, unavailable, Post, rows, granted, refused, first, All-of_IsIn, All-rows, User, All-limit,
  Answer, AffiliateReport, Database,
}
use affiliate_platform.JobQueue.{PriorityDelayQueue, enqueued, EnqueueResult}
use affiliate_platform.JobQueue.Conservation.{jobs, Adds, enqueue-Adds}
use affiliate_platform.JobQueue.Ordering.{items}
use affiliate_platform.Submissions.{App, is_of_post, latest_report, ReconciliationJob, is_post}
use affiliate_platform.Access.{require_role, has_member}
use affiliate_platform.Endpoints.Trigger.{
  is_joined, with_queue, run_wanted, finished, for_role, trigger_reconciliation, is_reconciled,
  after_enqueue, enqueue_one, enqueue_for, unless_reconciled, is_pending, enqueue_reports,
  wanted_reports, ReconciliationTrigger, Progress,
}

-- The reports of a list are those of the table that may be enqueued.
abbrev pub MayRun : Database → ReconciliationTrigger → AffiliateReport → Type 0
MayRun db t r = is_pending db t r ≡ true

abbrev pub AllMayRun : Database → ReconciliationTrigger → Answer (List AffiliateReport) → Type 0
AllMayRun db t (refused reason) = Unit
AllMayRun db t (granted reports) = All (MayRun db t) reports

-- The number of a report without a log.
abbrev pub IsNew : Database → ReconciliationTrigger → ℕ → Type 0
IsNew db t n = (t.force_reprocess || not (has_member n db.logged)) ≡ true

AllMayRun-unless_reconciled :
    (db : Database) (t : ReconciliationTrigger) (o : Option AffiliateReport)
    → AllMayRun db t (unless_reconciled db t o)
AllMayRun-unless_reconciled db t none = tt
AllMayRun-unless_reconciled db t (some r) =
    elim (Bool-cases (is_reconciled db r && not t.force_reprocess)) [
      | inl e ↦ rw e tt
      | inr e ↦ rw e (ground (arith, e), tt)
    ]

AllMayRun-wanted_reports :
    (db : Database) (t : ReconciliationTrigger) (o : Option ℕ)
    → AllMayRun db t (wanted_reports db t o)
unfolding wanted_reports
AllMayRun-wanted_reports db t none = All-limit (MayRun db t) 1000 _ (
    All-rows (MayRun db t) (is_joined db t) db.reports
      (All-of_IsIn _ db.reports (λ r m e. ground (arith, e))))
AllMayRun-wanted_reports db t (some n) = elim (Option-cases (first (is_post n) db.posts)) [
  | inl e ↦ rw e tt
  | inr (p, e) ↦
      rw e (AllMayRun-unless_reconciled db t (latest_report (rows (is_of_post n) db.reports)))
]

-- The numbers of the reports whose jobs are in a queue.
abbrev pub queued_reports : PriorityDelayQueue ReconciliationJob → List ℕ
queued_reports q = map (λ j. j.affiliate_report_id) (jobs (items q))

abbrev pub all_queued : Option (PriorityDelayQueue ReconciliationJob) → List ℕ
all_queued none = []
all_queued (some q) = queued_reports q

-- What the loop has done to a queue that held some reports: it has put in the reports that it notes,
-- which are new, and nothing else.
abbrev pub Added : Database → ReconciliationTrigger → List ℕ → Progress → Type 0
Added db t old p = All (IsNew db t) p.reports × Perm (queued_reports p.queue) (p.reports ++ old)

snoc-perm : (n : ℕ) (l m : List ℕ) → Perm (n ∷ (l ++ m)) ((l ++ (n ∷ [])) ++ m)
snoc-perm n [] m = Perm.refl (n ∷ m)
snoc-perm n (k ∷ l) m = Perm.trans (Perm.swap k n (l ++ m)) (Perm.cons k (snoc-perm n l m))

Added-after_enqueue :
    (db : Database) (t : ReconciliationTrigger) (old : List ℕ) (p : Progress) (r : AffiliateReport)
    (label : String) (o : EnqueueResult ReconciliationJob)
    → MayRun db t r
    → Adds p.queue (record { affiliate_report_id = r.id; priority = label }) o
    → Added db t old p
    → Added db t old (after_enqueue p r o)
Added-after_enqueue db t old p r label (enqueued q item) m a h = (
  All-append (IsNew db t) p.reports (r.id ∷ []) h.0 (m, tt),
  Perm.trans (Perm.map (λ j. j.affiliate_report_id) a)
      (Perm.trans (Perm.cons r.id h.1) (snoc-perm r.id p.reports old)),
)
Added-after_enqueue db t old p r label (EnqueueResult.refused e) m a h = h

Added-enqueue_for :
    (db : Database) (t : ReconciliationTrigger) (old : List ℕ) (now : ℕ) (p : Progress)
    (r : AffiliateReport) (o : Option Post)
    → MayRun db t r
    → Added db t old p
    → Added db t old (enqueue_for db now p r o)
Added-enqueue_for db t old now p r none m h = h
Added-enqueue_for db t old now p r (some post) m h =
    Added-after_enqueue db t old p r _ _ m (enqueue-Adds p.queue now _ _ (pos 0)) h

Added-enqueue_reports :
    (db : Database) (t : ReconciliationTrigger) (old : List ℕ) (now : ℕ) (p : Progress)
    (reports : List AffiliateReport)
    → All (MayRun db t) reports
    → Added db t old p
    → Added db t old (enqueue_reports db now p reports)
unfolding enqueue_reports
Added-enqueue_reports db t old now p [] m h = h
Added-enqueue_reports db t old now p (r ∷ reports) m h =
    let next = enqueue_one db now p r in
    let k = Added-enqueue_for db t old now p r (first (is_post r.post_id) db.posts) m.0 h in
    elim (Bool-cases next.raised) [
      | inl e ↦ rw e k
      | inr e ↦ rw e (Added-enqueue_reports db t old now next reports m.1 k)
    ]

-- A granted answer names the reports that were put into the queue.
abbrev pub Names : Answer (List ℕ) → List ℕ → Type 0
Names (refused reason) reports = Unit
Names (granted named) reports = named ≡ reports

-- Some reports, which are new, were put into the queue, and the tables are as they were.
abbrev pub EnqueuesNew : App → ReconciliationTrigger → App × Answer (List ℕ) → Type 0
EnqueuesNew app t (app', answer) =
    (app'.db ≡ app.db)
    × ((reports : List ℕ) × All (IsNew app.db t) reports
        × Perm (all_queued app'.reconciliation_queue)
            (reports ++ all_queued app.reconciliation_queue)
        × Names answer reports)

-- A request that is refused before the loop.
EnqueuesNew-unchanged :
    (app : App) (t : ReconciliationTrigger) (reason : Refusal)
    → EnqueuesNew app t (app, refused reason)
EnqueuesNew-unchanged app t reason = (refl, ([], tt, Perm.refl _, tt))

EnqueuesNew-finished :
    (t : ReconciliationTrigger) (app : App) (old : List ℕ) (p : Progress)
    → all_queued app.reconciliation_queue ≡ old
    → Added app.db t old p
    → EnqueuesNew app t (finished app p)
EnqueuesNew-finished t app old p q h = elim (Bool-cases p.raised) [
  | inl e ↦ rw (e, q) (refl, (p.reports, h.0, h.1, tt))
  | inr e ↦ rw (e, q) (refl, (p.reports, h.0, h.1, refl))
]

EnqueuesNew-run_wanted :
    (t : ReconciliationTrigger) (now : ℕ) (app : App) (q : PriorityDelayQueue ReconciliationJob)
    (a : Answer (List AffiliateReport))
    → app.reconciliation_queue ≡ some q
    → AllMayRun app.db t a
    → EnqueuesNew app t (run_wanted now app q a)
EnqueuesNew-run_wanted t now app q (refused reason) e h = EnqueuesNew-unchanged app t reason
EnqueuesNew-run_wanted t now app q (granted reports) e h =
    let empty : Progress = record { queue = q; reports = []; raised = false } in
    EnqueuesNew-finished t app (queued_reports q) (enqueue_reports app.db now empty reports)
      (ap all_queued e)
      (Added-enqueue_reports app.db t (queued_reports q) now empty reports h (tt, Perm.refl _))

EnqueuesNew-with_queue :
    (t : ReconciliationTrigger) (now : ℕ) (app : App)
    (o : Option (PriorityDelayQueue ReconciliationJob))
    → app.reconciliation_queue ≡ o
    → EnqueuesNew app t (with_queue t now app o)
EnqueuesNew-with_queue t now app none e = EnqueuesNew-unchanged app t unavailable
EnqueuesNew-with_queue t now app (some q) e =
    EnqueuesNew-run_wanted t now app q _ e (AllMayRun-wanted_reports app.db t t.post_id)

EnqueuesNew-for_role :
    (t : ReconciliationTrigger) (app : App) (a : Answer User) (body : App × Answer (List ℕ))
    → EnqueuesNew app t body
    → EnqueuesNew app t (for_role app a body)
EnqueuesNew-for_role t app (refused reason) body h = EnqueuesNew-unchanged app t reason
EnqueuesNew-for_role t app (granted user) body h = h

-- A trigger, for one post or for all, granted, refused or ended by an exception in the loop, changes
-- no table, and adds to the jobs in the queue exactly one job for each of some reports, each of which
-- has no reconciliation log, unless `force_reprocess` was asked for. A granted answer names these
-- reports.
pub trigger_reconciliation-EnqueuesNew :
    (app : App) (user : User) (t : ReconciliationTrigger) (now : ℕ)
    → EnqueuesNew app t (trigger_reconciliation app user t now)
unfolding trigger_reconciliation
trigger_reconciliation-EnqueuesNew app user t now =
    EnqueuesNew-for_role t app (require_role (admin ∷ client ∷ []) user) _
      (EnqueuesNew-with_queue t now app app.reconciliation_queue refl)
