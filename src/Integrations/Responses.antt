-- ===== src/Integrations/Responses.antt =====
-- What each mock makes of its draws (affiliate-reconciliation-backend/app/integrations: instagram.py,
-- tiktok.py, youtube.py, x.py and reddit.py).
use affiliate_platform.Prelude.{
  ◌+◌, ◌*◌, ◌/◌, false, Option, none, some, ◌==◌, if◌then◌else◌, get_or_else, Ratio, Text,
}
use affiliate_platform.Integrations.Draws.{Drawn, scaled}
use affiliate_platform.Integrations.Schemas.{
  InstagramApiResponse, TikTokApiResponse, YouTubeApiResponse, XapiResponse, RedditApiResponse,
  PlatformApiResponse,
}

unfoldable pub instagram_raw : Drawn → InstagramApiResponse
unfolding scaled
instagram_raw d = record {
  impressions = scaled d.base (d.factor 0);
  reach = d.base;
  like_count = scaled d.base (d.factor 1);
  comment_count = scaled d.base (d.factor 2);
  play_count = if d.coin then some (scaled d.base (d.factor 3)) else none;
  saved = some (scaled d.base (d.factor 4));
  profile_visits = some (scaled d.base (d.factor 5));
  website_clicks = some (scaled d.base (d.factor 6));
}

unfoldable pub instagram_response : Text → Drawn → InstagramApiResponse → PlatformApiResponse
instagram_response post_url d raw = record {
  post_url = post_url;
  platform_name = "instagram";
  views = raw.impressions;
  clicks = get_or_else raw.website_clicks 0;
  conversions = get_or_else raw.saved 0 + get_or_else raw.profile_visits 0;
  likes = some raw.like_count;
  comments = some raw.comment_count;
  shares = some (raw.like_count * 15 / 100);
  api_version = some "v18.0";
  rate_limit_remaining = some (d.whole 0);
  cache_hit = false;
}

unfoldable pub tiktok_raw : Drawn → TikTokApiResponse
unfolding scaled
tiktok_raw d = record {
  play_count = d.base;
  like_count = scaled d.base (d.factor 0);
  comment_count = scaled d.base (d.factor 1);
  share_count = scaled d.base (d.factor 2);
  view_count = some (d.base * 95 / 100);
  profile_views = some (scaled d.base (d.factor 3));
}

unfoldable pub tiktok_response : Text → Drawn → TikTokApiResponse → PlatformApiResponse
tiktok_response post_url d raw = record {
  post_url = post_url;
  platform_name = "tiktok";
  views = raw.play_count;
  clicks = get_or_else raw.profile_views 0;
  conversions = raw.share_count;
  likes = some raw.like_count;
  comments = some raw.comment_count;
  shares = some raw.share_count;
  api_version = some "v1.3";
  rate_limit_remaining = some (d.whole 0);
  cache_hit = false;
}

unfoldable pub youtube_raw : Drawn → YouTubeApiResponse
unfolding scaled
youtube_raw d = record {
  view_count = d.base;
  like_count = scaled d.base (d.factor 0);
  comment_count = scaled d.base (d.factor 1);
  subscriber_count_gained = some (d.whole 0);
  average_view_duration = some (d.factor 2);
  click_through_rate = some (d.factor 3);
}

-- `raw.click_through_rate or 0.05`: a rate of 0 counts as none.
abbrev pub rate_or_default : Option Ratio → Ratio
rate_or_default none = record { num = 5; den = 100 }
rate_or_default (some r) = if r.num == 0 then record { num = 5; den = 100 } else r

unfoldable pub youtube_response : Text → Drawn → YouTubeApiResponse → PlatformApiResponse
unfolding scaled
youtube_response post_url d raw = record {
  post_url = post_url;
  platform_name = "youtube";
  views = raw.view_count;
  clicks = scaled raw.view_count (rate_or_default raw.click_through_rate);
  conversions = get_or_else raw.subscriber_count_gained 0;
  likes = some raw.like_count;
  comments = some raw.comment_count;
  shares = some (raw.like_count * 3 / 10);
  api_version = some "v3";
  rate_limit_remaining = some (d.whole 1);
  cache_hit = false;
}

unfoldable pub x_raw : Drawn → XapiResponse
unfolding scaled
x_raw d = record {
  retweet_count = scaled d.base (d.factor 0);
  like_count = scaled d.base (d.factor 1);
  reply_count = scaled d.base (d.factor 2);
  quote_count = scaled d.base (d.factor 3);
  impression_count = some d.base;
  bookmark_count = some (scaled d.base (d.factor 4));
  profile_clicks = some (scaled d.base (d.factor 5));
  url_link_clicks = some (scaled d.base (d.factor 6));
}

unfoldable pub x_response : Text → Drawn → XapiResponse → PlatformApiResponse
x_response post_url d raw = record {
  post_url = post_url;
  platform_name = "x";
  views = get_or_else raw.impression_count 0;
  clicks = get_or_else raw.url_link_clicks 0 + get_or_else raw.profile_clicks 0;
  conversions = get_or_else raw.bookmark_count 0;
  likes = some raw.like_count;
  comments = some raw.reply_count;
  shares = some (raw.retweet_count + raw.quote_count);
  api_version = some "v2";
  rate_limit_remaining = some (d.whole 0);
  cache_hit = false;
}

unfoldable pub reddit_raw : Drawn → RedditApiResponse
unfolding scaled
reddit_raw d = record {
  ups = d.base;
  downs = scaled d.base (d.factor 0);
  score = scaled d.base (d.factor 1);
  num_comments = scaled d.base (d.factor 2);
  upvote_ratio = d.factor 3;
  awards = some (d.whole 0);
  gilded = some (d.whole 1);
  total_awards_received = some (d.whole 2);
  subreddit = some "technology";
  permalink = some "/r/technology/comments/123abc/title/";
}

unfoldable pub reddit_response : Text → Drawn → RedditApiResponse → PlatformApiResponse
reddit_response post_url d raw = record {
  post_url = post_url;
  platform_name = "reddit";
  views = raw.ups;
  clicks = raw.num_comments;
  conversions = get_or_else raw.total_awards_received 0;
  likes = some raw.ups;
  comments = some raw.num_comments;
  shares = some (raw.ups * 2 / 100);
  api_version = some "v1.0";
  rate_limit_remaining = some (d.whole 3);
  cache_hit = false;
}
