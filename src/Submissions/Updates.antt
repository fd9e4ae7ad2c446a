-- ===== src/Submissions/Updates.antt =====
-- `update_post_metrics`
-- (affiliate-reconciliation-backend/app/api/v1/endpoints/submissions.py).
use affiliate_platform.Prelude.{
  ℕ, Bool, Option, none, some, List, [], ◌∷◌, ◌++◌, String, if◌then◌else◌, ◌==◌, ◌&&◌, ◌||◌, not,
  ltb, Text, same_text,
}
use affiliate_platform.Access.{is_active_platform, is_given}
use affiliate_platform.Classifier.{Claim}
use affiliate_platform.Links.{Reply, Outcome, ok, error, Site, process_post_url}
use affiliate_platform.Quality.{Flag, evaluate_submission}
use affiliate_platform.Tables.{
  Database, User, Post, AffiliateReport, Answer, granted, refused, or_refuse, and_then, bad_request,
  not_found, unprocessable, server_error, first, rows, updated,
}
use affiliate_platform.Submissions.Records.{
  UserPostSubmission, App, Given, Submitted, enqueue_report, made_report, is_own_post, is_of_post,
}

abbrev pub same_url : Post → UserPostSubmission → Outcome (Text × Site) → Answer Post
same_url post s (error e) = refused unprocessable
same_url post s (ok (url, site)) =
    if not (same_text url post.url)
    then refused bad_request
    else if not (s.campaign_id == post.campaign_id) || not (s.platform_id == post.platform_id)
    then refused bad_request
    else granted post

-- The checks of `update_post_metrics`, up to the post that is updated.
unfoldable pub check_update :
    (Text → Reply) → Database → User → ℕ → UserPostSubmission → Answer Post
unfolding first
check_update api db user post_id s =
    and_then (or_refuse (first (is_own_post post_id user) db.posts) not_found) (λ post.
      and_then (or_refuse (first (is_active_platform post.platform_id) db.platforms) server_error)
        (λ platform. same_url post s (process_post_url api s.post_url platform.name)))

-- `if submission.title and submission.title != post.title: post.title = submission.title`.
abbrev pub replaced : Option String → Option String → Option String
replaced new old = if is_given new then new else old

abbrev pub with_metadata : UserPostSubmission → Post → Post
with_metadata s p = record p {
  title = replaced s.title p.title;
  description = replaced s.description p.description;
}

abbrev pub is_post : ℕ → Post → Bool
is_post n p = p.id == n

-- `max(post.affiliate_reports, key=lambda r: (r.submitted_at or 0, r.id))`: the first of the
-- greatest, for the rules that compare with the previous report.
abbrev pub is_later : AffiliateReport → AffiliateReport → Bool
is_later r q =
    ltb q.submitted_at r.submitted_at || (r.submitted_at == q.submitted_at && ltb q.id r.id)

abbrev pub later_of : AffiliateReport → Option AffiliateReport → AffiliateReport
later_of r none = r
later_of r (some q) = if is_later q r then q else r

unfoldable pub latest_report : List AffiliateReport → Option AffiliateReport
latest_report [] = none
latest_report (r ∷ reports) = some (later_of r (latest_report reports))

abbrev pub claim_of : Option AffiliateReport → Option Claim
claim_of none = none
claim_of (some r) = some r.claim

-- The flags of an update.
unfoldable pub update_flags : Database → ℕ → UserPostSubmission → List Flag
unfolding evaluate_submission latest_report rows
update_flags db post_id s =
    evaluate_submission (claim_of (latest_report (rows (is_of_post post_id) db.reports))) s.claim
      s.has_evidence

-- The writes of `update_post_metrics`.
unfoldable pub store_update : Given → App → User → Post → UserPostSubmission → App
unfolding update_flags enqueue_report updated
store_update g app user post s =
    let flags = update_flags app.db post.id s in
    record {
      db = record app.db {
        posts = updated (is_post post.id) (with_metadata s) app.db.posts;
        reports = app.db.reports ++ (made_report g post.id s flags ∷ []);
      };
      reconciliation_queue = enqueue_report app.reconciliation_queue g.now user g.report_id flags;
    }

abbrev pub after_update_check :
    Given → App → User → UserPostSubmission → Answer Post → App × Answer Submitted
after_update_check g app user s (refused reason) = (app, refused reason)
after_update_check g app user s (granted post) = (
  store_update g app user post s,
  granted (record { post_id = post.id; affiliate_report_id = g.report_id }),
)

unfoldable pub update_post_metrics :
    (Text → Reply) → Given → App → User → ℕ → UserPostSubmission → App × Answer Submitted
update_post_metrics api g app user post_id s =
    after_update_check g app user s (check_update api app.db user post_id s)
