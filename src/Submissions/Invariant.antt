-- ===== src/Submissions/Invariant.antt =====
-- What holds of the posts and the reports after every submission
-- (affiliate-reconciliation-backend/app/api/v1/endpoints/submissions.py and
-- affiliate-reconciliation-backend/app/models/db/posts.py).
use affiliate_platform.Tables.{refused, granted, Answer, User, Database, Post, AffiliateReport}
use mathlib.Core.Path.{subst}
use affiliate_platform.Submissions.Outcomes.{check_submission-Checked, Checked, Checked-new}
use affiliate_platform.Links.{Reply}
use affiliate_platform.Submissions.{
  after_check, check_submission, made_post, is_same_post, UserPostSubmission, App, submit_post,
  Given, store_submission,
}
use affiliate_platform.Prelude.{
  All-both, Text, ℕ, ◌≡◌, refl, Bool, true, false, List, [], ◌∷◌, ◌++◌, ◌==◌, ◌&&◌, ◌||◌, All,
  All-append, All-weaken, arith, same_text,
}

-- Two posts with the key of `unique_user_post_per_campaign`, or with the same id.
abbrev pub same_post : Post → Post → Bool
same_post p q =
    p.campaign_id == q.campaign_id
    && (p.platform_id == q.platform_id && (same_text p.url q.url && p.user_id == q.user_id))

abbrev pub clashes : Post → Post → Bool
clashes p q = same_post p q || p.id == q.id

-- No two posts of the list clash.
abbrev pub IsUnique : List Post → Type 0
IsUnique [] = Unit
IsUnique (p ∷ l) = All (λ q. clashes p q ≡ false) l × IsUnique l

abbrev pub has_post : ℕ → List Post → Bool
has_post n [] = false
has_post n (p ∷ l) = p.id == n || has_post n l

-- No two posts clash, and every report is of a post.
abbrev pub IsConsistent : Database → Type 0
IsConsistent db = IsUnique db.posts × All (λ r. has_post r.post_id db.posts ≡ true) db.reports

IsUnique-append :
    (l : List Post) (q : Post)
    → IsUnique l
    → All (λ p. clashes p q ≡ false) l
    → IsUnique (l ++ (q ∷ []))
IsUnique-append [] q h f = (tt, tt)
IsUnique-append (p ∷ l) q h f =
    (All-append (λ r. clashes p r ≡ false) l (q ∷ []) h.0 (f.0, tt), IsUnique-append l q h.1 f.1)

has_post-append : (n : ℕ) (l m : List Post) → has_post n (l ++ m) ≡ (has_post n l || has_post n m)
has_post-append n [] m = refl
has_post-append n (p ∷ l) m = ground (arith, has_post-append n l m)

-- A post that is added keeps the database consistent, if it clashes with none.
IsConsistent-add :
    (posts : List Post) (reports : List AffiliateReport) (p : Post) (r : AffiliateReport)
    → IsUnique posts
    → All (λ q. has_post q.post_id posts ≡ true) reports
    → All (λ q. clashes q p ≡ false) posts
    → r.post_id ≡ p.id
    → IsUnique (posts ++ (p ∷ []))
      × All (λ q. has_post q.post_id (posts ++ (p ∷ [])) ≡ true) (reports ++ (r ∷ []))
IsConsistent-add posts reports p r u h f e = (
  IsUnique-append posts p u f,
  All-append (λ q. has_post q.post_id (posts ++ (p ∷ [])) ≡ true) reports (r ∷ [])
      (All-weaken _ _ reports (λ q k. ground (arith, has_post-append q.post_id posts (p ∷ []), k))
        h)
      (ground (arith, has_post-append r.post_id posts (p ∷ []), e), tt),
)

has_post-fresh : (n : ℕ) (l : List Post) → has_post n l ≡ false → All (λ p. (p.id == n) ≡ false) l
has_post-fresh n [] h = tt
has_post-fresh n (p ∷ l) h = (ground (arith, h), has_post-fresh n l (ground (arith, h)))

IsConsistent-store_submission :
    (g : Given) (app : App) (user : User) (s : UserPostSubmission) (url : Text)
    → IsConsistent app.db
    → has_post g.post_id app.db.posts ≡ false
    → All (λ p. is_same_post s url user p ≡ false) app.db.posts
    → IsConsistent (store_submission g app user s url).db
unfolding store_submission
IsConsistent-store_submission g app user s url c f n =
    IsConsistent-add app.db.posts app.db.reports (made_post g user s url) _ c.0 c.1
      (All-both _ _ _ app.db.posts (λ p h k. ground (arith, h, k)) n
        (has_post-fresh g.post_id app.db.posts f))
      refl

submit-answer :
    (g : Given) (app : App) (user : User) (s : UserPostSubmission) (a : Answer Text)
    → IsConsistent app.db
    → has_post g.post_id app.db.posts ≡ false
    → ((url : Text) → a ≡ granted url → All (λ p. is_same_post s url user p ≡ false) app.db.posts)
    → IsConsistent (after_check g app user s a).0.db
submit-answer g app user s (refused reason) c f n = c
submit-answer g app user s (granted url) c f n =
    IsConsistent-store_submission g app user s url c f (n url refl)

-- A submission, granted or refused, leaves no two posts with the same campaign, platform, URL and
-- user, nor two with the same id, and no report without its post, if there were none before and the
-- id of the new post is not in use.
pub submit_post-IsConsistent :
    (api : Text → Reply) (g : Given) (app : App) (user : User) (s : UserPostSubmission)
    → IsConsistent app.db
    → has_post g.post_id app.db.posts ≡ false
    → IsConsistent (submit_post api g app user s).0.db
unfolding submit_post
submit_post-IsConsistent api g app user s c f =
    submit-answer g app user s (check_submission api app.db user s) c f (λ url e.
      Checked-new api app.db user s url
        (subst (Checked api app.db user s) e (check_submission-Checked api app.db user s)))
