-- ===== src/Submissions/Records.antt =====
-- What the submission endpoints work on, and the job that they put into the queue
-- (affiliate-reconciliation-backend/app/api/v1/endpoints/submissions.py).
use affiliate_platform.Prelude.{
  zero, ℕ, Bool, true, false, Option, none, some, List, [], ◌∷◌, String, ◌==◌, ◌&&◌, ℤ, pos, Text,
}
use affiliate_platform.Classifier.{Claim}
use affiliate_platform.JobQueue.{PriorityDelayQueue, EnqueueResult, enqueued, enqueue}
use affiliate_platform.Quality.{Flag}
use affiliate_platform.Tables.{Database, User, Post, AffiliateReport}
use affiliate_platform.Trust.{compute_priority}
use affiliate_platform.Trust.Priorities.{label_text}

-- The job of a report; `scheduled_at` and `correlation_id` stay at their default None.
pub record ReconciliationJob : Type 0 where
  pub affiliate_report_id : ℕ
  pub priority : String

-- The body of a request.
pub record UserPostSubmission : Type 0 where
  pub campaign_id : ℕ
  pub platform_id : ℕ
  pub post_url : Text
  pub title : Option String
  pub description : Option String
  pub claim : Claim
  pub has_evidence : Bool

-- The state that a request works on: the database, and `app.state.reconciliation_queue`.
pub record App : Type 0 where
  pub db : Database
  pub reconciliation_queue : Option (PriorityDelayQueue ReconciliationJob)

-- What the database and its clock give to a request.
pub record Given : Type 0 where
  pub post_id : ℕ
  pub report_id : ℕ
  pub now : ℕ

-- The data of a response.
pub record Submitted : Type 0 where
  pub post_id : ℕ
  pub affiliate_report_id : ℕ

-- `float(trust_score or 0.5)`: no score and a score of zero are both read as 0.5.
unfoldable pub trust_or_half : Option ℤ → ℤ
trust_or_half none = pos 50
trust_or_half (some (pos zero)) = pos 50
trust_or_half (some score) = score

abbrev pub has_flags : List Flag → Bool
has_flags [] = false
has_flags (f ∷ flags) = true

-- The label of a report's job.
unfoldable pub job_priority : User → List Flag → String
unfolding trust_or_half compute_priority label_text
job_priority user flags =
    label_text (compute_priority (trust_or_half user.trust_score) (has_flags flags))

-- An error of the queue is logged and dropped.
abbrev pub kept_queue :
    PriorityDelayQueue ReconciliationJob
    → EnqueueResult ReconciliationJob
    → PriorityDelayQueue ReconciliationJob
kept_queue q (enqueued q' item) = q'
kept_queue q (EnqueueResult.refused e) = q

unfoldable pub enqueue_report :
    Option (PriorityDelayQueue ReconciliationJob)
    → ℕ
    → User
    → ℕ
    → List Flag
    → Option (PriorityDelayQueue ReconciliationJob)
unfolding job_priority enqueue
enqueue_report none now user report_id flags = none
enqueue_report (some q) now user report_id flags =
    let job : ReconciliationJob = record {
      affiliate_report_id = report_id;
      priority = job_priority user flags;
    } in
    some (kept_queue q (enqueue q now job (job_priority user flags) (pos 0)))

abbrev pub made_report : Given → ℕ → UserPostSubmission → List Flag → AffiliateReport
made_report g post_id s flags = record {
  id = g.report_id;
  post_id = post_id;
  claim = s.claim;
  has_evidence = s.has_evidence;
  suspicion_flags = flags;
  submitted_at = g.now;
}

-- Only own posts.
abbrev pub is_own_post : ℕ → User → Post → Bool
is_own_post post_id user p = p.id == post_id && p.user_id == user.id

abbrev pub is_of_post : ℕ → AffiliateReport → Bool
is_of_post n r = r.post_id == n
