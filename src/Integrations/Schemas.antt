-- ===== src/Integrations/Schemas.antt =====
-- The responses of the platforms and the common one
-- (affiliate-reconciliation-backend/app/models/schemas/platform.py).
use affiliate_platform.Prelude.{ℕ, String, Bool, true, Option, none, some, leb, Ratio, Text}

pub record InstagramApiResponse : Type 0 where
  pub like_count : ℕ
  pub comment_count : ℕ
  pub impressions : ℕ
  pub reach : ℕ
  pub play_count : Option ℕ
  pub saved : Option ℕ
  pub profile_visits : Option ℕ
  pub website_clicks : Option ℕ

pub record TikTokApiResponse : Type 0 where
  pub play_count : ℕ
  pub like_count : ℕ
  pub comment_count : ℕ
  pub share_count : ℕ
  pub view_count : Option ℕ
  pub profile_views : Option ℕ

pub record YouTubeApiResponse : Type 0 where
  pub view_count : ℕ
  pub like_count : ℕ
  pub comment_count : ℕ
  pub subscriber_count_gained : Option ℕ
  pub average_view_duration : Option Ratio
  pub click_through_rate : Option Ratio

pub record XapiResponse : Type 0 where
  pub retweet_count : ℕ
  pub like_count : ℕ
  pub reply_count : ℕ
  pub quote_count : ℕ
  pub impression_count : Option ℕ
  pub bookmark_count : Option ℕ
  pub profile_clicks : Option ℕ
  pub url_link_clicks : Option ℕ

pub record RedditApiResponse : Type 0 where
  pub ups : ℕ
  pub downs : ℕ
  pub score : ℕ
  pub num_comments : ℕ
  pub upvote_ratio : Ratio
  pub awards : Option ℕ
  pub gilded : Option ℕ
  pub total_awards_received : Option ℕ
  pub subreddit : Option String
  pub permalink : Option String

pub record PlatformApiResponse : Type 0 where
  pub post_url : Text
  pub platform_name : String
  pub views : ℕ
  pub clicks : ℕ
  pub conversions : ℕ
  pub likes : Option ℕ
  pub comments : Option ℕ
  pub shares : Option ℕ
  pub api_version : Option String
  pub rate_limit_remaining : Option ℕ
  pub cache_hit : Bool

-- A share of at most 1, as `le=1` asks.
abbrev pub at_most_one : Ratio → Bool
at_most_one r = leb r.num r.den

-- `Optional[float]` with `le=1`.
abbrev pub is_rate : Option Ratio → Bool
is_rate none = true
is_rate (some r) = at_most_one r
