-- ===== src/Analytics/Breakdown.antt =====
-- The breakdown of a campaign by platform against its totals
-- (affiliate-reconciliation-backend/app/api/v1/endpoints/analytics.py).
use affiliate_platform.Tables.Joins.{
  total-map, total-const, total, total-inner_join, total-left_join, total-if, total-rows, All-every,
  total-padded, total-ext, total_swap, padded,
}
use affiliate_platform.Prelude.{◌∷◌, ◌*◌, [], ap, arith, sym, if◌then◌else◌, ◌∙◌, ◌≡◌, All, refl}
use affiliate_platform.Tables.Groups.{total-grouped}
use affiliate_platform.Analytics.{
  left_join, inner_join, grouped, Option, PlatformReport, List, Post, String, Platform, rows, Claim,
  length, sums, ℕ, Facts, is_posted_on, in_campaign, metric_of, totals_rows, breakdown_rows,
  platform_breakdown, share_of, reports_joined, platform_key, same_platform, PlatformShare,
}
use affiliate_platform.Analytics.Totals.{counted_post, totals_sum}

-- Each post was made on one platform of the table.
abbrev pub HasPlatforms : Facts → Type 0
HasPlatforms t = All (λ p. length (rows (λ f. is_posted_on f p) t.platforms) ≡ 1) t.posts

module _ (t : Facts) (campaign_id : ℕ) where
  abbrev shared : (Claim → ℕ) → (Platform × Post) × Option PlatformReport → ℕ
  shared m row = if in_campaign campaign_id row.0.1 then metric_of m row else 0

  shared-padded :
      (m : Claim → ℕ) (a : Platform × Post) (rs : List PlatformReport)
      → total (shared m) (padded a rs)
        ≡ (if in_campaign campaign_id a.1 then total (λ r. m r.metrics) rs else 0)
  shared-padded m a rs =
      total-padded (shared m) a rs (ground arith)
      ∙ total-if (in_campaign campaign_id a.1) (λ r. m r.metrics) rs

  -- The rows of all groups, platform by platform.
  breakdown_sum :
      (m : Claim → ℕ)
      → total (metric_of m) (breakdown_rows t campaign_id)
        ≡ total
            (λ f.
              total (λ p. if is_posted_on f p then counted_post t campaign_id m p else 0) t.posts)
            t.platforms
  unfolding breakdown_rows
  breakdown_sum m =
      let pairs = inner_join is_posted_on t.platforms t.posts in
      total-rows (metric_of m) (λ row. in_campaign campaign_id row.0.1)
        (left_join reports_joined pairs t.platform_reports)
      ∙ total-left_join (shared m) reports_joined pairs t.platform_reports
      ∙ total-ext (λ a. total (shared m) (padded a (rows (reports_joined a) t.platform_reports)))
          (λ a. counted_post t campaign_id m a.1) pairs
          (All-every _ pairs (λ a. shared-padded m a (rows (reports_joined a) t.platform_reports)))
      ∙ total-inner_join (λ a. counted_post t campaign_id m a.1) is_posted_on t.platforms t.posts

  -- Each post is counted for its one platform.
  each_once :
      (m : Claim → ℕ) (posts : List Post)
      → All (λ p. length (rows (λ f. is_posted_on f p) t.platforms) ≡ 1) posts
      → total
          (λ p.
            total (λ f. if is_posted_on f p then counted_post t campaign_id m p else 0) t.platforms)
          posts
        ≡ total (counted_post t campaign_id m) posts
  unfolding total
  each_once m [] h = refl
  each_once m (p ∷ posts) h =
      let here =
        total-const (λ f. is_posted_on f p) (counted_post t campaign_id m p) t.platforms
        ∙ ap (λ (n : ℕ). counted_post t campaign_id m p * n) h.0 in
      omega (arith, here, each_once m posts h.1)

  breakdown-totals :
      (m : Claim → ℕ)
      → HasPlatforms t
      → total (metric_of m) (breakdown_rows t campaign_id)
        ≡ total (metric_of m) (totals_rows t campaign_id)
  breakdown-totals m h =
      breakdown_sum m
      ∙ total_swap (λ f p. if is_posted_on f p then counted_post t campaign_id m p else 0)
          t.platforms t.posts
      ∙ each_once m t.posts h
      ∙ sym (totals_sum t campaign_id m)

  shares-sum :
      (m : Claim → ℕ) (n : PlatformShare → ℕ)
      → ((g : (ℕ × String) × List ((Platform × Post) × Option PlatformReport))
          → n (share_of g) ≡ total (metric_of m) g.1)
      → total n (platform_breakdown t campaign_id)
        ≡ total (metric_of m) (breakdown_rows t campaign_id)
  unfolding platform_breakdown
  shares-sum m n h =
      let groups = grouped same_platform platform_key (breakdown_rows t campaign_id) in
      total-map n share_of groups
      ∙ total-ext (λ g. n (share_of g)) (λ g. total (metric_of m) g.1) groups (All-every _ groups h)
      ∙ total-grouped same_platform (metric_of m) platform_key (breakdown_rows t campaign_id)

-- Where each post was made on one platform of the table, the views, the clicks and the conversions of
-- the breakdown add up to the totals of the campaign.
pub platform_breakdown-totals :
    (t : Facts) (campaign_id : ℕ)
    → HasPlatforms t
    → let shares = platform_breakdown t campaign_id in
      let all = sums (totals_rows t campaign_id) in
      (total (λ s. s.metrics.views) shares ≡ all.views)
      × (total (λ s. s.metrics.clicks) shares ≡ all.clicks)
      × (total (λ s. s.metrics.conversions) shares ≡ all.conversions)
platform_breakdown-totals t campaign_id h = (
  shares-sum t campaign_id (λ c. c.views) (λ s. s.metrics.views) (λ g. refl)
      ∙ breakdown-totals t campaign_id (λ c. c.views) h,
  shares-sum t campaign_id (λ c. c.clicks) (λ s. s.metrics.clicks) (λ g. refl)
      ∙ breakdown-totals t campaign_id (λ c. c.clicks) h,
  shares-sum t campaign_id (λ c. c.conversions) (λ s. s.metrics.conversions) (λ g. refl)
      ∙ breakdown-totals t campaign_id (λ c. c.conversions) h,
)
