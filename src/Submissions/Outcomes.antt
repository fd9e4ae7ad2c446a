-- ===== src/Submissions/Outcomes.antt =====
-- The outcomes of `submit_post`
-- (affiliate-reconciliation-backend/app/api/v1/endpoints/submissions.py).
use affiliate_platform.Quality.{evaluate_submission}
use affiliate_platform.Prelude.{
  [], ◌∷◌, ◌++◌, ◌≡◌, refl, true, false, Option, none, some, Bool-cases, ◌⊎◌, inl, inr, is_some,
  All, if◌then◌else◌, Text,
}
use affiliate_platform.Access.{is_active_campaign, is_active_platform, has_member}
use affiliate_platform.Links.{Reply, Outcome, ok, error, Site, LinkError, process_post_url}
use affiliate_platform.Tables.{
  Database, User, Campaign, Platform, Post, Answer, granted, refused, or_refuse, and_then,
  bad_request, not_found, conflict, unprocessable, first, first-Found, Found, IsIn,
}
use affiliate_platform.Submissions.{
  after_check, made_report, made_post, Submitted, App, store_submission, submit_post, Given,
  UserPostSubmission, check_submission, new_url, is_same_post,
}

abbrev pub campaign_of : Database → UserPostSubmission → Option Campaign
campaign_of db s = first (is_active_campaign s.campaign_id) db.campaigns

abbrev pub platform_of : Database → UserPostSubmission → Option Platform
platform_of db s = first (is_active_platform s.platform_id) db.platforms

-- What the answer on a link and the posts says.
abbrev pub NewUrl :
    Database → User → UserPostSubmission → Outcome (Text × Site) → Answer Text → Type 0
NewUrl db user s o (granted url) =
    ((site : Site) × (o ≡ ok (url, site))) × All (λ p. is_same_post s url user p ≡ false) db.posts
NewUrl db user s o (refused reason) =
    ((reason ≡ unprocessable) × ((e : LinkError) × (o ≡ error e)))
    ⊎ ((reason ≡ conflict)
        × ((url : Text) × (site : Site) × (p : Post) × (o ≡ ok (url, site))
            × (is_same_post s url user p ≡ true)
            × IsIn p db.posts))

-- What the answer of the checks says: the first one that failed, or that all hold.
abbrev pub Checked : (Text → Reply) → Database → User → UserPostSubmission → Answer Text → Type 0
Checked api db user s a =
    ((a ≡ refused not_found) × (campaign_of db s ≡ none))
    ⊎ ((campaign : Campaign) × (campaign_of db s ≡ some campaign)
        × (((a ≡ refused not_found) × (platform_of db s ≡ none))
            ⊎ ((platform : Platform) × (platform_of db s ≡ some platform)
                × (((a ≡ refused bad_request)
                      × (has_member platform.id campaign.platform_ids ≡ false))
                    ⊎ ((has_member platform.id campaign.platform_ids ≡ true)
                        × NewUrl db user s (process_post_url api s.post_url platform.name) a)))))

NewUrl-duplicate :
    (db : Database) (user : User) (s : UserPostSubmission) (url : Text) (site : Site)
    (o : Option Post)
    → Found (is_same_post s url user) db.posts o
    → NewUrl db user s (ok (url, site)) (if is_some o then refused conflict else granted url)
NewUrl-duplicate db user s url site none h = ((site, refl), h)
NewUrl-duplicate db user s url site (some p) h = inr (refl, (url, site, p, refl, h.0, h.1))

NewUrl-new_url :
    (db : Database) (user : User) (s : UserPostSubmission) (o : Outcome (Text × Site))
    → NewUrl db user s o (new_url db user s o)
NewUrl-new_url db user s (error e) = inl (refl, (e, refl))
NewUrl-new_url db user s (ok (url, site)) =
    NewUrl-duplicate db user s url site (first (is_same_post s url user) db.posts)
      (first-Found (is_same_post s url user) db.posts)

abbrev platform_answer :
    (Text → Reply) → Database → User → UserPostSubmission → Campaign → Platform → Answer Text
platform_answer api db user s campaign platform =
    if has_member platform.id campaign.platform_ids
    then new_url db user s (process_post_url api s.post_url platform.name)
    else refused bad_request

Checked-platform :
    (api : Text → Reply) (db : Database) (user : User) (s : UserPostSubmission)
    (campaign : Campaign) (o : Option Platform)
    → campaign_of db s ≡ some campaign
    → platform_of db s ≡ o
    → Checked api db user s
        (and_then (or_refuse o not_found) (platform_answer api db user s campaign))
Checked-platform api db user s campaign none hc hp = inr (campaign, hc, inl (refl, hp))
Checked-platform api db user s campaign (some platform) hc hp = inr (
  campaign,
  hc,
  inr (
    platform,
    hp,
    elim (Bool-cases (has_member platform.id campaign.platform_ids)) [
      | inl e ↦
          rw e
            (inr (refl, NewUrl-new_url db user s (process_post_url api s.post_url platform.name)))
      | inr e ↦ rw e (inl (refl, refl))
    ],
  ),
)

Checked-campaign :
    (api : Text → Reply) (db : Database) (user : User) (s : UserPostSubmission)
    (o : Option Campaign)
    → campaign_of db s ≡ o
    → Checked api db user s (
        and_then (or_refuse o not_found) (λ campaign.
          and_then
            (or_refuse (platform_of db s) not_found)
            (platform_answer api db user s campaign)))
Checked-campaign api db user s none hc = inl (refl, hc)
Checked-campaign api db user s (some campaign) hc =
    Checked-platform api db user s campaign (platform_of db s) hc refl

pub check_submission-Checked :
    (api : Text → Reply) (db : Database) (user : User) (s : UserPostSubmission)
    → Checked api db user s (check_submission api db user s)
unfolding check_submission
check_submission-Checked api db user s = Checked-campaign api db user s (campaign_of db s) refl

-- What a request leaves behind: after a refusal everything as it was, and otherwise one more post,
-- with the stored URL, and one more report, of that post, with the flags of its claim.
abbrev pub SubmitMeans :
    (Text → Reply) → Given → App → User → UserPostSubmission → App × Answer Submitted → Type 0
SubmitMeans api g app user s (app', refused reason) =
    (app' ≡ app) × Checked api app.db user s (refused reason)
SubmitMeans api g app user s (app', granted d) =
    (url : Text) × Checked api app.db user s (granted url)
    × ((d.post_id ≡ g.post_id) × (d.affiliate_report_id ≡ g.report_id))
    × (app'.db.posts ≡ app.db.posts ++ (made_post g user s url ∷ []))
    × (app'.db.reports
        ≡ app.db.reports
          ++ (made_report g g.post_id s (evaluate_submission none s.claim s.has_evidence) ∷ []))
    × ((app'.db.campaigns ≡ app.db.campaigns) × (app'.db.platforms ≡ app.db.platforms))

SubmitMeans-answer :
    (api : Text → Reply) (g : Given) (app : App) (user : User) (s : UserPostSubmission)
    (a : Answer Text)
    → Checked api app.db user s a
    → SubmitMeans api g app user s (after_check g app user s a)
unfolding store_submission
SubmitMeans-answer api g app user s (refused reason) h = (refl, h)
SubmitMeans-answer api g app user s (granted url) h =
    (url, h, (refl, refl), refl, refl, (refl, refl))

-- On every branch of `submit_post`: without an active campaign, without an active platform, with a
-- platform that the campaign does not have, with a link that fails and with a post that the user
-- has already, the request is refused with the status of the first of these, and nothing changes;
-- otherwise one post and one report are added.
pub submit_post-SubmitMeans :
    (api : Text → Reply) (g : Given) (app : App) (user : User) (s : UserPostSubmission)
    → SubmitMeans api g app user s (submit_post api g app user s)
unfolding submit_post
submit_post-SubmitMeans api g app user s =
    SubmitMeans-answer api g app user s (check_submission api app.db user s)
      (check_submission-Checked api app.db user s)

-- The post of a URL that passed the checks is new.
pub Checked-new :
    (api : Text → Reply) (db : Database) (user : User) (s : UserPostSubmission) (url : Text)
    → Checked api db user s (granted url)
    → All (λ p. is_same_post s url user p ≡ false) db.posts
Checked-new api db user s url (inl (e, h)) = absurd (cc)
Checked-new api db user s url (inr (campaign, hc, inl (e, h))) = absurd (cc)
Checked-new api db user s url (inr (campaign, hc, inr (platform, hp, inl (e, h)))) = absurd (cc)
Checked-new api db user s url (inr (campaign, hc, inr (platform, hp, inr (m, n)))) = n.1
