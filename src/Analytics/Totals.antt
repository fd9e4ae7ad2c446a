-- ===== src/Analytics/Totals.antt =====
-- The totals of a campaign against its posts and their platform reports, and against the breakdown by
-- platform (affiliate-reconciliation-backend/app/api/v1/endpoints/analytics.py).
use affiliate_platform.Prelude.{arith, max, ◌∙◌, ◌≡◌}
use affiliate_platform.Analytics.{
  Option, length, if◌then◌else◌, rows, PlatformReport, List, Post, ℕ, Claim, Facts, reports_post,
  in_campaign, metric_of, totals_rows,
}
use affiliate_platform.Tables.Joins.{
  length-left_join, All-every, total-if, total, left_join, total-rows, total-left_join,
  total-padded, total-ext, padded,
}

-- The platform reports of a post, as one number.
abbrev pub metric_of_post : Facts → (Claim → ℕ) → Post → ℕ
metric_of_post t m p = total (λ r. m r.metrics) (rows (reports_post p) t.platform_reports)

module _ (t : Facts) (campaign_id : ℕ) where
  -- What a row of the posts counts.
  abbrev counted_row : (Claim → ℕ) → Post × Option PlatformReport → ℕ
  counted_row m row = if in_campaign campaign_id row.0 then metric_of m row else 0

  abbrev pub counted_post : (Claim → ℕ) → Post → ℕ
  counted_post m p = if in_campaign campaign_id p then metric_of_post t m p else 0

  counted_row-padded :
      (m : Claim → ℕ) (p : Post) (rs : List PlatformReport)
      → total (counted_row m) (padded p rs)
        ≡ (if in_campaign campaign_id p then total (λ r. m r.metrics) rs else 0)
  counted_row-padded m p rs =
      total-padded (counted_row m) p rs (ground arith)
      ∙ total-if (in_campaign campaign_id p) (λ r. m r.metrics) rs

  -- Each total is the sum over the posts of the campaign.
  pub totals_sum :
      (m : Claim → ℕ)
      → total (metric_of m) (totals_rows t campaign_id) ≡ total (counted_post m) t.posts
  unfolding totals_rows
  totals_sum m =
      total-rows (metric_of m) (λ row. in_campaign campaign_id row.0)
        (left_join reports_post t.posts t.platform_reports)
      ∙ total-left_join (counted_row m) reports_post t.posts t.platform_reports
      ∙ total-ext (λ p. total (counted_row m) (padded p (rows (reports_post p) t.platform_reports)))
          (counted_post m) t.posts
          (All-every _ t.posts
            (λ p. counted_row-padded m p (rows (reports_post p) t.platform_reports)))

-- The platform reports of a post.
abbrev pub reports_of : Facts → Post → List PlatformReport
reports_of t p = rows (reports_post p) t.platform_reports

-- The number of posts counts a post of the campaign once for each of its platform reports, and once
-- if it has none.
pub totals_rows-length :
    (t : Facts) (campaign_id : ℕ)
    → length (totals_rows t campaign_id)
      ≡ total
          (λ p. if in_campaign campaign_id p then max 1 (length (reports_of t p)) else 0)
          t.posts
unfolding totals_rows
totals_rows-length t campaign_id =
    length-left_join (in_campaign campaign_id) reports_post t.posts t.platform_reports
