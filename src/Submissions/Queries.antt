-- ===== src/Submissions/Queries.antt =====
-- `get_submission_history` and `get_post_metrics_history`
-- (affiliate-reconciliation-backend/app/api/v1/endpoints/submissions.py).
use affiliate_platform.Prelude.{ℕ, Bool, true, Option, none, some, List, ◌==◌, ◌&&◌, ◌||◌, leb}
use affiliate_platform.Tables.{
  ordered, Database, User, Post, AffiliateReport, Answer, granted, or_refuse, and_then, not_found,
  first, rows, offset, limit,
}
use affiliate_platform.Submissions.Records.{is_own_post, is_of_post}

-- `if campaign_id: query = query.filter(...)`: no filter for None and for 0.
abbrev pub passes : Option ℕ → ℕ → Bool
passes none n = true
passes (some k) n = k == 0 || n == k

abbrev pub is_in_history : User → Option ℕ → Option ℕ → Post → Bool
is_in_history user campaign_id platform_id p =
    p.user_id == user.id && (passes campaign_id p.campaign_id && passes platform_id p.platform_id)

abbrev pub is_newer : Post → Post → Bool
is_newer p q = leb q.created_at p.created_at

unfoldable pub get_submission_history : Database → User → ℕ → ℕ → Option ℕ → Option ℕ → List Post
unfolding rows ordered offset limit
get_submission_history db user n_limit n_offset campaign_id platform_id = limit n_limit (
    offset n_offset (ordered is_newer (rows (is_in_history user campaign_id platform_id) db.posts)))

abbrev pub is_older : AffiliateReport → AffiliateReport → Bool
is_older r q = leb r.submitted_at q.submitted_at

-- Of a report the response keeps all columns but the flags.
unfoldable pub get_post_metrics_history : Database → User → ℕ → Answer (List AffiliateReport)
unfolding first rows ordered
get_post_metrics_history db user post_id =
    and_then (or_refuse (first (is_own_post post_id user) db.posts) not_found)
      (λ post. granted (ordered is_older (rows (is_of_post post_id) db.reports)))
