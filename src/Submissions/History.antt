-- ===== src/Submissions/History.antt =====
-- What the history endpoints return
-- (affiliate-reconciliation-backend/app/api/v1/endpoints/submissions.py).
use affiliate_platform.Submissions.{is_newer, is_in_history, get_submission_history}
use affiliate_platform.Tables.{
  ordered, offset, All-of_IsIn, rows, IsIn, User, Database, All-rows, All-ordered, All-offset,
  All-limit, length-limit,
}
use affiliate_platform.Prelude.{arith, All, ◌≤◌, length, Option, ℕ, ◌≡◌}

-- A page of the history has at most as many posts as its limit, and only the user's own.
pub get_submission_history_own :
    (db : Database) (user : User) (n_limit n_offset : ℕ) (campaign_id platform_id : Option ℕ)
    → let page = get_submission_history db user n_limit n_offset campaign_id platform_id in
      (length page ≤ n_limit) × All (λ p. (p.user_id ≡ user.id) × IsIn p db.posts) page
unfolding get_submission_history
get_submission_history_own db user n_limit n_offset campaign_id platform_id =
    let posts = rows (is_in_history user campaign_id platform_id) db.posts in
    let own : All (λ p. (p.user_id ≡ user.id) × IsIn p db.posts) posts =
      All-rows (λ p. (p.user_id ≡ user.id) × IsIn p db.posts)
        (is_in_history user campaign_id platform_id) db.posts
        (All-of_IsIn _ db.posts (λ p m e. (ground (arith, e), m))) in
    (
      length-limit n_limit (offset n_offset (ordered is_newer posts)),
      All-limit _ n_limit _ (All-offset _ n_offset _ (All-ordered _ is_newer posts own)),
    )
