-- ===== src/Analytics/Examples.antt =====
-- The analytics of a small campaign.
use affiliate_platform.Tables.{rows}
use affiliate_platform.Prelude.{
  round_half_even, max, if◌then◌else◌, pos, ◌≡◌, refl, none, some, [], ◌∷◌,
}
use affiliate_platform.Analytics.{
  false, total, true, AffiliateReport, matched, Post, PlatformReport, ℕ, length, LogRow, Platform,
  Facts, platform_breakdown, totals_rows, sums, health_of, recon_rows, in_campaign,
}
use affiliate_platform.Analytics.Totals.{totals_rows-length, reports_of}
use affiliate_platform.Analytics.Breakdown.{platform_breakdown-totals}

abbrev tiktok : Platform
tiktok = record { id = 1; name = "tiktok"; is_active = true }

abbrev post : ℕ → Post
post n = record {
  id = n;
  campaign_id = 3;
  user_id = 4;
  platform_id = 1;
  url = [];
  title = none;
  description = none;
  created_at = 0;
}

abbrev fetched : ℕ → ℕ → PlatformReport
fetched n views = record {
  id = n;
  post_id = 1;
  platform_id = 1;
  metrics = record { views = views; clicks = 10; conversions = 1 };
}

abbrev claimed : ℕ → AffiliateReport
claimed n = record {
  id = n;
  post_id = 1;
  claim = record { views = 1000; clicks = 10; conversions = 1 };
  has_evidence = false;
  suspicion_flags = [];
  submitted_at = 0;
}

abbrev log : LogRow
log = record {
  id = 1;
  affiliate_report_id = 7;
  platform_report_id = some 1;
  status = matched;
  discrepancy_level = none;
  views_discrepancy = pos 0;
  clicks_discrepancy = pos 0;
  conversions_discrepancy = pos 0;
  views_diff_pct = none;
  clicks_diff_pct = none;
  conversions_diff_pct = none;
  max_discrepancy_pct = none;
  trust_delta = none;
  attempt_count = 1;
  notes = none;
  processed_at = 0;
}

-- Two posts; the first one was reported twice by the affiliate and fetched twice.
abbrev facts : Facts
facts = record {
  posts = post 1 ∷ post 2 ∷ [];
  platforms = tiktok ∷ [];
  platform_reports = fetched 1 1000 ∷ fetched 2 1200 ∷ [];
  reports = claimed 7 ∷ claimed 8 ∷ [];
  logs = log ∷ [];
  alerts = [];
}

posts_counted : length (totals_rows facts 3) ≡ 3
unfolding totals_rows
posts_counted = refl

health :
    health_of (recon_rows facts 3)
    ≡ record { success_rate = some 10000; pending_reports = 1; total_reconciled = 1 }
unfolding health_of recon_rows round_half_even
health = refl

totals_rows-length_example :
    length (totals_rows facts 3)
    ≡ total (λ p. if in_campaign 3 p then max 1 (length (reports_of facts p)) else 0) facts.posts
totals_rows-length_example = totals_rows-length facts 3

platform_breakdown-totals_example :
    let shares = platform_breakdown facts 3 in
    let all = sums (totals_rows facts 3) in
    (total (λ s. s.metrics.views) shares ≡ all.views)
    × (total (λ s. s.metrics.clicks) shares ≡ all.clicks)
    × (total (λ s. s.metrics.conversions) shares ≡ all.conversions)
unfolding rows
platform_breakdown-totals_example = platform_breakdown-totals facts 3 (refl, (refl, tt))
