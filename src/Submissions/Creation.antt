-- ===== src/Submissions/Creation.antt =====
-- `submit_post`
-- (affiliate-reconciliation-backend/app/api/v1/endpoints/submissions.py).
use affiliate_platform.Prelude.{
  ℕ, Bool, none, [], ◌∷◌, ◌++◌, if◌then◌else◌, ◌==◌, ◌&&◌, is_some, ◌+◌, Text, same_text,
}
use affiliate_platform.Access.{is_active_campaign, is_active_platform, has_member}
use affiliate_platform.Links.{Reply, Outcome, ok, error, Site, process_post_url}
use affiliate_platform.Quality.{evaluate_submission}
use affiliate_platform.Tables.{
  Database, User, Post, Answer, granted, refused, or_refuse, and_then, bad_request, not_found,
  conflict, unprocessable, first, updated,
}
use affiliate_platform.Submissions.Records.{
  UserPostSubmission, App, Given, Submitted, enqueue_report, made_report,
}

-- The filter of the check for an existing post.
abbrev pub is_same_post : UserPostSubmission → Text → User → Post → Bool
is_same_post s url user p =
    p.campaign_id == s.campaign_id
    && (p.platform_id == s.platform_id && (same_text p.url url && p.user_id == user.id))

abbrev pub new_url : Database → User → UserPostSubmission → Outcome (Text × Site) → Answer Text
new_url db user s (error e) = refused unprocessable
new_url db user s (ok (url, site)) =
    if is_some (first (is_same_post s url user) db.posts) then refused conflict else granted url

-- The checks of `submit_post`, up to the URL that is stored.
unfoldable pub check_submission :
    (Text → Reply) → Database → User → UserPostSubmission → Answer Text
unfolding first
check_submission api db user s =
    and_then (or_refuse (first (is_active_campaign s.campaign_id) db.campaigns) not_found)
      (λ campaign.
        and_then (or_refuse (first (is_active_platform s.platform_id) db.platforms) not_found)
          (λ platform.
            if has_member platform.id campaign.platform_ids
            then new_url db user s (process_post_url api s.post_url platform.name)
            else refused bad_request))

-- `current_user.total_submissions += 1`.
abbrev pub counted : User → User
counted u = record u { total_submissions = u.total_submissions + 1 }

abbrev pub is_user : ℕ → User → Bool
is_user n u = u.id == n

abbrev pub made_post : Given → User → UserPostSubmission → Text → Post
made_post g user s url = record {
  id = g.post_id;
  campaign_id = s.campaign_id;
  user_id = user.id;
  platform_id = s.platform_id;
  url = url;
  title = s.title;
  description = s.description;
  created_at = g.now;
}

-- The writes of `submit_post`, with the flags of a post that has no previous report.
unfoldable pub store_submission : Given → App → User → UserPostSubmission → Text → App
unfolding evaluate_submission enqueue_report updated
store_submission g app user s url =
    let flags = evaluate_submission none s.claim s.has_evidence in
    record {
      db = record app.db {
        users = updated (is_user user.id) counted app.db.users;
        posts = app.db.posts ++ (made_post g user s url ∷ []);
        reports = app.db.reports ++ (made_report g g.post_id s flags ∷ []);
      };
      reconciliation_queue = enqueue_report app.reconciliation_queue g.now user g.report_id flags;
    }

-- The end of the request: what is stored and answered, or the refusal that is passed on.
abbrev pub after_check :
    Given → App → User → UserPostSubmission → Answer Text → App × Answer Submitted
after_check g app user s (refused reason) = (app, refused reason)
after_check g app user s (granted url) = (
  store_submission g app user s url,
  granted (record { post_id = g.post_id; affiliate_report_id = g.report_id }),
)

unfoldable pub submit_post :
    (Text → Reply) → Given → App → User → UserPostSubmission → App × Answer Submitted
submit_post api g app user s = after_check g app user s (check_submission api app.db user s)
