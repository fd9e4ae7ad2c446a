-- ===== src/Endpoints/Results/Details.antt =====
-- What `get_reconciliation_result` shows of a report
-- (affiliate-reconciliation-backend/app/api/v1/endpoints/reconciliation.py).
use affiliate_platform.Prelude.{◌⊎◌, ◌∷◌, none, ==_iff, inl, inr, ◌∙◌, map, All, ◌≡◌, refl}
use mathlib.Core.Path.{subst}
use affiliate_platform.Enums.{admin, client}
use affiliate_platform.Access.{require_role}
use affiliate_platform.Tables.{Found, first, first-Found, refused, IsIn, Refusal, Answer, granted}
use affiliate_platform.Endpoints.Results.{
  [], Platform, true, some, Post, List, AffiliateReport, LogRow, Option, ℕ, User, ResultTables,
  ReconciliationResult, FetchedReport, DiscrepancyDetail, details, observed_metrics,
  build_reconciliation_result, with_post, with_report, with_log, get_reconciliation_result,
  is_log_for, has_report_id, has_post_id, has_platform_id, is_fetched, name_of,
}

-- Each metric of the detail is there, and is that of the platform report.
abbrev pub ObservesAll : Option FetchedReport → List DiscrepancyDetail → Type 0
ObservesAll none ds = All (λ d. d.observed ≡ none) ds
ObservesAll (some f) ds =
    map (λ d. d.observed) ds
    ≡ some f.report.metrics.views
      ∷ some f.report.metrics.clicks
      ∷ some f.report.metrics.conversions
      ∷ []

-- The result is of a log of this report, with its differences, the claim of the report, and the
-- platform report that the log names.
pub record ResultMeans (t : ResultTables) (n : ℕ) (res : ReconciliationResult) : Type 0 where
  pub from_log : IsIn res.log t.logs × (res.log.affiliate_report_id ≡ n)
  pub from_report :
      (r : AffiliateReport) × IsIn r t.reports
      × (r.id ≡ n)
      × (res.affiliate_metrics.metrics ≡ r.claim)
      × (map (λ d. d.claimed) res.discrepancies
          ≡ r.claim.views ∷ r.claim.clicks ∷ r.claim.conversions ∷ [])
  pub differences :
      map (λ d. d.absolute_diff) res.discrepancies
      ≡ res.log.views_discrepancy ∷ res.log.clicks_discrepancy ∷ res.log.conversions_discrepancy
        ∷ []
  pub observes :
      ObservesAll
        (first (is_fetched res.log.platform_report_id) t.platform_reports)
        res.discrepancies

observes-build :
    (log : LogRow) (r : AffiliateReport) (post : Post) (p : Option Platform)
    (f : Option FetchedReport)
    → ObservesAll f (details log r.claim (observed_metrics f post (name_of p)))
observes-build log r post p none = (refl, (refl, (refl, tt)))
observes-build log r post p (some f) = refl

build-ResultMeans :
    (t : ResultTables) (n : ℕ) (log : LogRow) (r : AffiliateReport) (post : Post)
    (p : Option Platform)
    → IsIn log t.logs
    → log.affiliate_report_id ≡ n
    → IsIn r t.reports
    → has_report_id log.affiliate_report_id r ≡ true
    → ResultMeans t n (
        build_reconciliation_result log r post p
          (first (is_fetched log.platform_report_id) t.platform_reports))
unfolding build_reconciliation_result
build-ResultMeans t n log r post p m e i q = record {
  from_log = (m, e);
  from_report = (r, i, (==_iff r.id log.affiliate_report_id).0 q ∙ e, refl, refl);
  differences = refl;
  observes =
      observes-build log r post p (first (is_fetched log.platform_report_id) t.platform_reports);
}

Answer-cases :
    {A : Type 0} (a : Answer A) → ((x : A) × (a ≡ granted x)) ⊎ ((r : Refusal) × (a ≡ refused r))
Answer-cases (granted x) = inl (x, refl)
Answer-cases (refused r) = inr (r, refl)

granted_inj : {A : Type 0} (a b : A) → granted a ≡ granted b → a ≡ b
granted_inj a b e = cc

with_post-ResultMeans :
    (t : ResultTables) (n : ℕ) (log : LogRow) (r : AffiliateReport) (res : ReconciliationResult)
    (o : Option Post)
    → ((post : Post)
        → ResultMeans t n (
            build_reconciliation_result log r post
              (first (has_platform_id post.platform_id) t.platforms)
              (first (is_fetched log.platform_report_id) t.platform_reports)))
    → with_post t log r o ≡ granted res
    → ResultMeans t n res
unfolding with_post
with_post-ResultMeans t n log r res none means h = absurd (cc)
with_post-ResultMeans t n log r res (some post) means h =
    subst (ResultMeans t n) (granted_inj _ res h) (means post)

with_report-ResultMeans :
    (t : ResultTables) (n : ℕ) (log : LogRow) (res : ReconciliationResult)
    (o : Option AffiliateReport)
    → IsIn log t.logs
    → log.affiliate_report_id ≡ n
    → Found (has_report_id log.affiliate_report_id) t.reports o
    → with_report t log o ≡ granted res
    → ResultMeans t n res
unfolding with_report
with_report-ResultMeans t n log res none m e f h = absurd (cc)
with_report-ResultMeans t n log res (some r) m e f h =
    with_post-ResultMeans t n log r res (first (has_post_id r.post_id) t.posts)
      (λ post.
        build-ResultMeans t n log r post (first (has_platform_id post.platform_id) t.platforms) m e
          f.1 f.0)
      h

with_log-ResultMeans :
    (t : ResultTables) (n : ℕ) (res : ReconciliationResult) (o : Option LogRow)
    → Found (is_log_for n) t.logs o
    → with_log t o ≡ granted res
    → ResultMeans t n res
unfolding with_log
with_log-ResultMeans t n res none f h = absurd (cc)
with_log-ResultMeans t n res (some log) f h =
    with_report-ResultMeans t n log res (first (has_report_id log.affiliate_report_id) t.reports)
      f.1 ((==_iff _ n).0 f.0) (first-Found (has_report_id log.affiliate_report_id) t.reports) h

-- A granted result shows the log of the report, the claim of the report and the differences of the
-- log; each observed metric is that of the platform report which the log names, and none if there is
-- no such report.
pub get_reconciliation_result-ResultMeans :
    (t : ResultTables) (user : User) (n : ℕ) (res : ReconciliationResult)
    → get_reconciliation_result t user n ≡ granted res
    → ResultMeans t n res
unfolding get_reconciliation_result
get_reconciliation_result-ResultMeans t user n res h =
    elim (Answer-cases (require_role (admin ∷ client ∷ []) user)) [
      | inl (u, e) ↦
          with_log-ResultMeans t n res (first (is_log_for n) t.logs)
            (first-Found (is_log_for n) t.logs) (rw e at h)
      | inr (r, e) ↦ absurd (let k = rw e at h in cc)
    ]
