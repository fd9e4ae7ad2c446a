-- ===== src/Submissions/Resubmission.antt =====
-- What a granted submission leads to: the same submission again, and the job in the queue
-- (affiliate-reconciliation-backend/app/api/v1/endpoints/submissions.py).
use affiliate_platform.Prelude.{
  ap, inr, inl, [], ◌∷◌, same_text_refl, ◌++◌, arith, is_some, true, List, Bool, Text, ◌≡◌,
}
use affiliate_platform.Links.{Reply}
use affiliate_platform.Submissions.{
  after_check, made_post, is_same_post, Submitted, UserPostSubmission, App, submit_post,
  check_submission, Given,
}
use affiliate_platform.Tables.{Refusal, conflict, refused, granted, Answer, User, Database, first}
use affiliate_platform.Submissions.Outcomes.{submit_post-SubmitMeans, Checked, SubmitMeans}

is_some-first-append :
    {A : Type 0}
    → (p : A → Bool) (l : List A) (x : A) → p x ≡ true
    → is_some (first p (l ++ (x ∷ []))) ≡ true
unfolding first
is_some-first-append p [] x e = ground (arith, e)
is_some-first-append p (y ∷ l) x e = ground (arith, is_some-first-append p l x e)

is_same_post-made_post :
    (g : Given) (user : User) (s : UserPostSubmission) (url : Text)
    → is_same_post s url user (made_post g user s url) ≡ true
is_same_post-made_post g user s url = ground (arith, same_text_refl url)

Checked-conflict :
    (api : Text → Reply) (db db' : Database) (user : User) (s : UserPostSubmission) (url : Text)
    → Checked api db user s (granted url)
    → db'.campaigns ≡ db.campaigns
    → db'.platforms ≡ db.platforms
    → is_some (first (is_same_post s url user) db'.posts) ≡ true
    → check_submission api db' user s ≡ refused conflict
unfolding check_submission
Checked-conflict api db db' user s url (inl (e, h)) c p d = absurd (cc)
Checked-conflict api db db' user s url (inr (campaign, hc, inl (e, h))) c p d = absurd (cc)
Checked-conflict api db db' user s url (inr (campaign, hc, inr (platform, hp, inl (e, h)))) c p d =
    absurd (cc)
Checked-conflict api db db' user s url
      (inr (campaign, hc, inr (platform, hp, inr (m, ((site, e), n))))) c p d =
    rw (c, hc, p, hp, m, e, d)

submit_post-refused :
    (api : Text → Reply) (g : Given) (app : App) (user : User) (s : UserPostSubmission)
    (reason : Refusal)
    → check_submission api app.db user s ≡ refused reason
    → submit_post api g app user s ≡ (app, refused reason)
unfolding submit_post
submit_post-refused api g app user s reason e = ap (after_check g app user s) e

submit-again :
    (api : Text → Reply) (g h : Given) (app : App) (user : User) (s : UserPostSubmission)
    (r : App × Answer Submitted) (d : Submitted)
    → SubmitMeans api g app user s r
    → r.1 ≡ granted d
    → submit_post api h r.0 user s ≡ (r.0, refused conflict)
submit-again api g h app user s (app', refused reason) d m e = absurd (cc)
submit-again api g h app user s (app', granted d') d (url, c, i, p, r, k) e =
    submit_post-refused api h app' user s conflict (
      Checked-conflict api app.db app'.db user s url c k.0 k.1 (
        rw p (
          is_some-first-append (is_same_post s url user) app.db.posts (made_post g user s url)
            (is_same_post-made_post g user s url))))

-- A submission that was granted is refused as a conflict when the user sends it again, with Reddit
-- answering alike, and the second request changes nothing.
pub submit_post_again :
    (api : Text → Reply) (g h : Given) (app : App) (user : User) (s : UserPostSubmission)
    (d : Submitted)
    → (submit_post api g app user s).1 ≡ granted d
    → submit_post api h (submit_post api g app user s).0 user s
      ≡ ((submit_post api g app user s).0, refused conflict)
submit_post_again api g h app user s d e =
    submit-again api g h app user s (submit_post api g app user s) d
      (submit_post-SubmitMeans api g app user s) e
