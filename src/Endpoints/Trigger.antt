-- ===== src/Endpoints/Trigger.antt =====
-- `trigger_reconciliation`
-- (affiliate-reconciliation-backend/app/api/v1/endpoints/reconciliation.py), on the tables and the
-- queue.
use affiliate_platform.Quality.{Flag}
use affiliate_platform.Trust.Priorities.{label_text}
use affiliate_platform.Trust.{compute_priority}
use affiliate_platform.Prelude.{
  String, ℤ, is_some, none, ◌&&◌, false, if◌then◌else◌, not, pos, [], ◌∷◌, ◌||◌, some, true, ◌++◌,
  List, Option, Bool, ℕ,
}
use affiliate_platform.Enums.{client, admin}
use affiliate_platform.Submissions.{
  has_flags, trust_or_half, ReconciliationJob, App, is_of_post, is_post, latest_report, is_user,
}
use affiliate_platform.JobQueue.{PriorityDelayQueue, EnqueueResult, enqueued, enqueue}
use affiliate_platform.Tables.{
  not_found, conflict, server_error, or_refuse, and_then, unavailable, bad_request, Database, User,
  Post, AffiliateReport, Answer, granted, refused, first, rows, limit,
}
use affiliate_platform.Access.{require_role, has_member}

pub record ReconciliationTrigger : Type 0 where
  pub post_id : Option ℕ
  pub force_reprocess : Bool

-- `report.reconciliation_log`.
abbrev pub is_reconciled : Database → AffiliateReport → Bool
is_reconciled db r = has_member r.id db.logged

-- `getattr(report.post.user, "trust_score", 0.5) or 0.5`, where no user counts as no score.
abbrev pub score_of : Option User → Option ℤ
score_of none = none
score_of (some u) = u.trust_score

unfoldable pub report_priority : Option User → List Flag → String
unfolding trust_or_half compute_priority label_text
report_priority user flags =
    label_text (compute_priority (trust_or_half (score_of user)) (has_flags flags))

-- What was put into the queue: the queue, the reports, and whether an exception ended the loop.
pub record Progress : Type 0 where
  pub queue : PriorityDelayQueue ReconciliationJob
  pub reports : List ℕ
  pub raised : Bool

abbrev pub after_enqueue : Progress → AffiliateReport → EnqueueResult ReconciliationJob → Progress
after_enqueue p r (enqueued q item) = record p { queue = q; reports = p.reports ++ (r.id ∷ []) }
after_enqueue p r (EnqueueResult.refused e) = record p { raised = true }

-- `enqueue_for_report`; a report without its post raises.
abbrev pub enqueue_for : Database → ℕ → Progress → AffiliateReport → Option Post → Progress
enqueue_for db now p r none = record p { raised = true }
enqueue_for db now p r (some post) =
    let label = report_priority (first (is_user post.user_id) db.users) r.suspicion_flags in
    let job : ReconciliationJob = record { affiliate_report_id = r.id; priority = label } in
    after_enqueue p r (enqueue p.queue now job label (pos 0))

abbrev pub enqueue_one : Database → ℕ → Progress → AffiliateReport → Progress
enqueue_one db now p r = enqueue_for db now p r (first (is_post r.post_id) db.posts)

-- The loop over the reports, up to the first exception.
unfoldable pub enqueue_reports : Database → ℕ → Progress → List AffiliateReport → Progress
unfolding first report_priority enqueue
enqueue_reports db now p [] = p
enqueue_reports db now p (r ∷ reports) =
    let next = enqueue_one db now p r in
    if next.raised then next else enqueue_reports db now next reports

-- The reports to enqueue.
abbrev pub unless_reconciled :
    Database → ReconciliationTrigger → Option AffiliateReport → Answer (List AffiliateReport)
unless_reconciled db t none = refused bad_request
unless_reconciled db t (some r) =
    if is_reconciled db r && not t.force_reprocess then refused conflict else granted (r ∷ [])

abbrev pub is_pending : Database → ReconciliationTrigger → AffiliateReport → Bool
is_pending db t r = t.force_reprocess || not (is_reconciled db r)

-- The join with the posts.
abbrev pub is_joined : Database → ReconciliationTrigger → AffiliateReport → Bool
is_joined db t r = is_pending db t r && is_some (first (is_post r.post_id) db.posts)

-- `query.limit(1000)`, on the number of reports.
unfoldable pub wanted_reports :
    Database → ReconciliationTrigger → Option ℕ → Answer (List AffiliateReport)
unfolding first rows latest_report limit
wanted_reports db t none = granted (limit 1000 (rows (is_joined db t) db.reports))
wanted_reports db t (some post_id) =
    and_then (or_refuse (first (is_post post_id) db.posts) not_found)
      (λ p. unless_reconciled db t (latest_report (rows (is_of_post post_id) db.reports)))

abbrev pub finished : App → Progress → App × Answer (List ℕ)
finished app p = (
  record app { reconciliation_queue = some p.queue },
  if p.raised then refused server_error else granted p.reports,
)

abbrev pub run_wanted :
    ℕ
    → App
    → PriorityDelayQueue ReconciliationJob
    → Answer (List AffiliateReport)
    → App × Answer (List ℕ)
run_wanted now app q (refused reason) = (app, refused reason)
run_wanted now app q (granted reports) =
    finished app
      (enqueue_reports app.db now (record { queue = q; reports = []; raised = false }) reports)

abbrev pub with_queue :
    ReconciliationTrigger
    → ℕ
    → App
    → Option (PriorityDelayQueue ReconciliationJob)
    → App × Answer (List ℕ)
with_queue t now app none = (app, refused unavailable)
with_queue t now app (some q) = run_wanted now app q (wanted_reports app.db t t.post_id)

abbrev pub for_role : App → Answer User → App × Answer (List ℕ) → App × Answer (List ℕ)
for_role app (refused reason) body = (app, refused reason)
for_role app (granted user) body = body

unfoldable pub trigger_reconciliation :
    App → User → ReconciliationTrigger → ℕ → App × Answer (List ℕ)
unfolding require_role
trigger_reconciliation app user t now =
    for_role app (require_role (admin ∷ client ∷ []) user)
      (with_queue t now app app.reconciliation_queue)
