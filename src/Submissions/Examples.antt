-- ===== src/Submissions/Examples.antt =====
-- Tests and examples on submissions.
use affiliate_platform.Tables.{refused, conflict, granted, User}
use affiliate_platform.Links.{process_post_url, raised, Reply}
use affiliate_platform.Config.{max_in_memory}
use affiliate_platform.Submissions.Resubmission.{submit_post_again}
use affiliate_platform.Submissions.{
  store_update, check_update, check_submission, ReconciliationJob, submit_post, store_submission,
  UserPostSubmission, update_post_metrics, Given, App,
}
use affiliate_platform.Submissions.Invariant.{submit_post-IsConsistent, IsConsistent}
use affiliate_platform.Submissions.Updating.{check_update-UpdateChecked, UpdateChecked}
use affiliate_platform.Submissions.Outcomes.{submit_post-SubmitMeans, SubmitMeans}
use affiliate_platform.Prelude.{
  pos, some, arith, true, ◌∷◌, ◌<◌, [], codes, none, Text, ℕ, ◌≡◌, refl,
}
use affiliate_platform.Enums.{affiliate, active}
use affiliate_platform.JobQueue.{depth, new_queue}

abbrev poster : User
poster = record {
  id = 4;
  name = "ann";
  email = "ann@example.com";
  api_key = none;
  discord_user_id = none;
  is_active = true;
  role = affiliate;
  client_id = none;
  trust_score = some (pos 40);
  total_submissions = 0;
}

abbrev start : App
start = record {
  db = record {
    users = poster ∷ [];
    clients = [];
    campaigns =
        record {
          id = 1;
          name = "spring";
          client_id = 1;
          created_by = 1;
          status = active;
          platform_ids = 2 ∷ [];
        }
        ∷ [];
    platforms = record { id = 2; name = "TikTok"; is_active = true } ∷ [];
    posts = [];
    reports = [];
    logged = [];
    foreign_keys = true;
  };
  reconciliation_queue = some new_queue;
}

abbrev no_reply : Text → Reply
no_reply share_id = raised

abbrev given : ℕ → Given
given n = record { post_id = n; report_id = n; now = n }

abbrev video : UserPostSubmission
video = record {
  campaign_id = 1;
  platform_id = 2;
  post_url = codes "https://tiktok.com/@ann/video/7?lang=en";
  title = none;
  description = none;
  claim = record { views = 100; clicks = 5; conversions = 1 };
  has_evidence = true;
}

submit_post-granted :
    (submit_post no_reply (given 9) start poster video).1
    ≡ granted (record { post_id = 9; affiliate_report_id = 9 })
unfolding submit_post check_submission store_submission process_post_url
submit_post-granted = refl

submit_post_again_example :
    submit_post no_reply
      (given 10)
      (submit_post no_reply (given 9) start poster video).0
      poster
      video
    ≡ ((submit_post no_reply (given 9) start poster video).0, refused conflict)
submit_post_again_example =
    submit_post_again no_reply (given 9) (given 10) start poster video
      (record { post_id = 9; affiliate_report_id = 9 }) submit_post-granted

submit_post-SubmitMeans_example :
    SubmitMeans no_reply
      (given 9)
      start
      poster
      video
      (submit_post no_reply (given 9) start poster video)
submit_post-SubmitMeans_example = submit_post-SubmitMeans no_reply (given 9) start poster video

submit_post-IsConsistent_example :
    IsConsistent (submit_post no_reply (given 9) start poster video).0.db
submit_post-IsConsistent_example =
    submit_post-IsConsistent no_reply (given 9) start poster video (tt, tt) refl

-- The state behind the submission.
abbrev stored : App
stored = store_submission (given 9) start poster video (codes "https://tiktok.com/@ann/video/7")

stored-IsConsistent : IsConsistent stored.db
unfolding store_submission
stored-IsConsistent = ((tt, tt), (refl, tt))

check_update-UpdateChecked_example :
    UpdateChecked no_reply stored.db poster 9 video (check_update no_reply stored.db poster 9 video)
check_update-UpdateChecked_example = check_update-UpdateChecked no_reply stored.db poster 9 video

update_post_metrics-granted :
    (update_post_metrics no_reply (given 10) stored poster 9 video).1
    ≡ granted (record { post_id = 9; affiliate_report_id = 10 })
unfolding update_post_metrics check_update store_update store_submission process_post_url
update_post_metrics-granted = refl

room : depth (new_queue {J = ReconciliationJob}) < max_in_memory
unfolding depth
room = ground arith
