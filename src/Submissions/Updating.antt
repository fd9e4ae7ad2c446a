-- ===== src/Submissions/Updating.antt =====
-- What `update_post_metrics` answers and what holds behind it
-- (affiliate-reconciliation-backend/app/api/v1/endpoints/submissions.py).
use mathlib.Core.Path.{subst}
use affiliate_platform.Links.{process_post_url, ok, error, LinkError, Site, Outcome, Reply}
use affiliate_platform.Prelude.{
  sym, eq_of_same_text, ◌&&◌, ◌==◌, same_text, inr, some, arith, none, inl, ◌⊎◌, All-weaken,
  Bool-cases, [], ◌∷◌, false, Option, true, All-append, All, List, Text, ℕ, ◌≡◌, refl,
}
use affiliate_platform.Tables.{
  granted, bad_request, server_error, or_refuse, and_then, first-Found, not_found, unprocessable,
  refused, Platform, Found, first, Answer, User, IsIn, Database, updated, Post,
}
use affiliate_platform.Submissions.{
  after_update_check, update_post_metrics, same_url, is_own_post, with_metadata, App, is_post,
  UserPostSubmission, Given, check_update, store_update,
}
use affiliate_platform.Submissions.Invariant.{clashes, IsUnique, has_post, IsConsistent}
use affiliate_platform.Access.{is_active_platform}

-- What the answer on the link of an update says.
abbrev pub SameUrl : Post → UserPostSubmission → Outcome (Text × Site) → Answer Post → Type 0
SameUrl post s o a =
    ((a ≡ refused unprocessable) × ((e : LinkError) × (o ≡ error e)))
    ⊎ ((url : Text) × (site : Site) × (o ≡ ok (url, site))
        × (((a ≡ refused bad_request) × (same_text url post.url ≡ false))
            ⊎ ((a ≡ refused bad_request)
                × ((s.campaign_id == post.campaign_id && s.platform_id == post.platform_id)
                    ≡ false))
            ⊎ ((a ≡ granted post)
                × (url ≡ post.url)
                × (s.campaign_id ≡ post.campaign_id)
                × (s.platform_id ≡ post.platform_id))))

-- What the answer of the checks says: the first one that failed, or that all hold.
abbrev pub UpdateChecked :
    (Text → Reply) → Database → User → ℕ → UserPostSubmission → Answer Post → Type 0
UpdateChecked api db user post_id s a =
    ((a ≡ refused not_found) × All (λ p. is_own_post post_id user p ≡ false) db.posts)
    ⊎ ((post : Post) × IsIn post db.posts
        × (is_own_post post_id user post ≡ true)
        × (((a ≡ refused server_error)
              × (first (is_active_platform post.platform_id) db.platforms ≡ none))
            ⊎ ((platform : Platform) × (first (is_active_platform post.platform_id) db.platforms
                  ≡ some platform)
                × SameUrl post s (process_post_url api s.post_url platform.name) a)))

SameUrl-same_url :
    (post : Post) (s : UserPostSubmission) (o : Outcome (Text × Site))
    → SameUrl post s o (same_url post s o)
SameUrl-same_url post s (error e) = inl (refl, (e, refl))
SameUrl-same_url post s (ok (url, site)) = inr (
  url,
  site,
  refl,
  elim (Bool-cases (same_text url post.url)) [
    | inr e ↦ rw e (inl (refl, refl))
    | inl e ↦
        elim (Bool-cases (s.campaign_id == post.campaign_id && s.platform_id == post.platform_id)) [
          | inr n ↦ inr (inl (ground (arith, e, n), n))
          | inl m ↦ inr (
              inr (
                ground (arith, e, m),
                eq_of_same_text url post.url e,
                ground (arith, m),
                ground (arith, m),
              ))
        ]
  ],
)

UpdateChecked-platform :
    (api : Text → Reply) (db : Database) (user : User) (post_id : ℕ) (s : UserPostSubmission)
    (post : Post) (o : Option Platform)
    → IsIn post db.posts
    → is_own_post post_id user post ≡ true
    → first (is_active_platform post.platform_id) db.platforms ≡ o
    → UpdateChecked api db user post_id s (
        and_then
          (or_refuse o server_error)
          (λ platform. same_url post s (process_post_url api s.post_url platform.name)))
UpdateChecked-platform api db user post_id s post none m e h = inr (post, m, e, inl (refl, h))
UpdateChecked-platform api db user post_id s post (some platform) m e h = inr (
  post,
  m,
  e,
  inr (platform, h, SameUrl-same_url post s (process_post_url api s.post_url platform.name)),
)

UpdateChecked-post :
    (api : Text → Reply) (db : Database) (user : User) (post_id : ℕ) (s : UserPostSubmission)
    (o : Option Post)
    → Found (is_own_post post_id user) db.posts o
    → UpdateChecked api db user post_id s (
        and_then (or_refuse o not_found) (λ post.
          and_then
            (or_refuse (first (is_active_platform post.platform_id) db.platforms) server_error)
            (λ platform. same_url post s (process_post_url api s.post_url platform.name))))
UpdateChecked-post api db user post_id s none h = inl (refl, h)
UpdateChecked-post api db user post_id s (some post) h =
    UpdateChecked-platform api db user post_id s post
      (first (is_active_platform post.platform_id) db.platforms) h.1 h.0 refl

-- On every branch of the checks of `update_post_metrics`: an update is let through only for a post
-- of the user, with an active platform, a link that is processed to the stored URL, and the post's
-- own campaign and platform; every refusal names the first of these that fails.
pub check_update-UpdateChecked :
    (api : Text → Reply) (db : Database) (user : User) (post_id : ℕ) (s : UserPostSubmission)
    → UpdateChecked api db user post_id s (check_update api db user post_id s)
unfolding check_update
check_update-UpdateChecked api db user post_id s =
    UpdateChecked-post api db user post_id s (first (is_own_post post_id user) db.posts)
      (first-Found (is_own_post post_id user) db.posts)

-- A change of the metadata moves no key and no id.
updated-clashes :
    (n : ℕ) (s : UserPostSubmission) (p : Post) (l : List Post)
    → All (λ q. clashes p q ≡ false) l
    → All (λ q. clashes p q ≡ false) (updated (is_post n) (with_metadata s) l)
unfolding updated
updated-clashes n s p [] h = tt
updated-clashes n s p (q ∷ l) h = elim (Bool-cases (is_post n q)) [
  | inl e ↦ rw e (h.0, updated-clashes n s p l h.1)
  | inr e ↦ rw e (h.0, updated-clashes n s p l h.1)
]

updated-IsUnique :
    (n : ℕ) (s : UserPostSubmission) (l : List Post)
    → IsUnique l
    → IsUnique (updated (is_post n) (with_metadata s) l)
unfolding updated
updated-IsUnique n s [] h = tt
updated-IsUnique n s (p ∷ l) h = elim (Bool-cases (is_post n p)) [
  | inl e ↦ rw e (updated-clashes n s p l h.0, updated-IsUnique n s l h.1)
  | inr e ↦ rw e (updated-clashes n s p l h.0, updated-IsUnique n s l h.1)
]

has_post-updated :
    (k n : ℕ) (s : UserPostSubmission) (l : List Post)
    → has_post k (updated (is_post n) (with_metadata s) l) ≡ has_post k l
unfolding updated
has_post-updated k n s [] = refl
has_post-updated k n s (p ∷ l) = elim (Bool-cases (is_post n p)) [
  | inl e ↦ rw (e, has_post-updated k n s l)
  | inr e ↦ rw (e, has_post-updated k n s l)
]

has_post-IsIn : (p : Post) (l : List Post) → IsIn p l → has_post p.id l ≡ true
has_post-IsIn p [] m = absurd m
has_post-IsIn p (q ∷ l) (inl e) = rw (← e) (ground arith)
has_post-IsIn p (q ∷ l) (inr m) = ground (arith, has_post-IsIn p l m)

IsConsistent-store_update :
    (g : Given) (app : App) (user : User) (p : Post) (s : UserPostSubmission)
    → IsConsistent app.db
    → IsIn p app.db.posts
    → IsConsistent (store_update g app user p s).db
unfolding store_update
IsConsistent-store_update g app user p s c m =
    let posts = app.db.posts in
    (
      updated-IsUnique p.id s posts c.0,
      All-append _ app.db.reports (_ ∷ [])
          (All-weaken _ _ app.db.reports (λ r k. rw (has_post-updated r.post_id p.id s posts) k)
            c.1)
          (rw (has_post-updated p.id p.id s posts) (has_post-IsIn p posts m), tt),
    )

UpdateChecked-IsIn :
    (api : Text → Reply) (db : Database) (user : User) (post_id : ℕ) (s : UserPostSubmission)
    (p : Post)
    → UpdateChecked api db user post_id s (granted p)
    → IsIn p db.posts
UpdateChecked-IsIn api db user post_id s p (inl (e, h)) = absurd (cc)
UpdateChecked-IsIn api db user post_id s p (inr (post, m, o, inl (e, h))) = absurd (cc)
UpdateChecked-IsIn api db user post_id s p (inr (post, m, o, inr (platform, h, inl (e, k)))) =
    absurd (cc)
UpdateChecked-IsIn api db user post_id s p
      (inr (post, m, o, inr (platform, h, inr (url, site, e, k)))) =
    elim k [
      | inl a ↦ absurd (let x = a.0 in cc)
      | inr (inl a) ↦ absurd (let x = a.0 in cc)
      | inr (inr a) ↦
          (let x : granted p ≡ granted post = a.0 in
            let y : p ≡ post = cc in subst (λ z. IsIn z db.posts) (sym y) m)
    ]

update-answer :
    (api : Text → Reply) (g : Given) (app : App) (user : User) (post_id : ℕ)
    (s : UserPostSubmission) (a : Answer Post)
    → IsConsistent app.db
    → UpdateChecked api app.db user post_id s a
    → IsConsistent (after_update_check g app user s a).0.db
update-answer api g app user post_id s (refused reason) c h = c
update-answer api g app user post_id s (granted p) c h =
    IsConsistent-store_update g app user p s c (UpdateChecked-IsIn api app.db user post_id s p h)

-- An update, granted or refused, keeps the posts unique and every report at its post.
pub update_post_metrics-IsConsistent :
    (api : Text → Reply) (g : Given) (app : App) (user : User) (post_id : ℕ)
    (s : UserPostSubmission)
    → IsConsistent app.db
    → IsConsistent (update_post_metrics api g app user post_id s).0.db
unfolding update_post_metrics
update_post_metrics-IsConsistent api g app user post_id s c =
    update-answer api g app user post_id s (check_update api app.db user post_id s) c
      (check_update-UpdateChecked api app.db user post_id s)
