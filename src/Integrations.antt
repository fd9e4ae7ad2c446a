-- ===== src/Integrations.antt =====
-- The mock integrations of affiliate-reconciliation-backend/app/integrations: instagram.py, tiktok.py,
-- x.py, youtube.py, fetch_reddit_metrics of reddit.py, and the service of platforms.py, on the schemas
-- of models/schemas/platform.py. What the module `random` draws is an input, in the order of the code:
-- factors are exact fractions instead of floats. The latency and `raw_response` are left out.
pub mod Draws
mod Schemas
mod Responses
pub mod Conforms
mod Examples
unfoldable pub use Schemas.*
unfoldable pub use Responses.*
use affiliate_platform.Prelude.{
  ◌||◌, ◌*◌, Option, none, some, if◌then◌else◌, Text, codes, lower, same_text,
}
use affiliate_platform.Integrations.Draws.{Drawn}

-- The keys of `integrations`; X has two.
pub data Integration : Type 0 where
  reddit instagram tiktok youtube x : Integration

unfoldable pub integration_of : Text → Option Integration
integration_of name =
    if same_text name (codes "reddit")
    then some reddit
    else if same_text name (codes "instagram")
    then some instagram
    else if same_text name (codes "tiktok")
    then some tiktok
    else if same_text name (codes "youtube")
    then some youtube
    else if same_text name (codes "x") || same_text name (codes "twitter")
    then some x
    else none

-- The `fetch_post_metrics` of an integration: none after a simulated failure, and where a schema
-- refuses a value, since the exception is caught.
unfoldable pub fetch_instagram : Text → Drawn → Option PlatformApiResponse
unfolding instagram_raw instagram_response
fetch_instagram post_url d =
    if d.fails then none else some (instagram_response post_url d (instagram_raw d))

unfoldable pub fetch_tiktok : Text → Drawn → Option PlatformApiResponse
unfolding tiktok_raw tiktok_response
fetch_tiktok post_url d = if d.fails then none else some (tiktok_response post_url d (tiktok_raw d))

unfoldable pub fetch_x : Text → Drawn → Option PlatformApiResponse
unfolding x_raw x_response
fetch_x post_url d = if d.fails then none else some (x_response post_url d (x_raw d))

unfoldable pub fetch_youtube : Text → Drawn → Option PlatformApiResponse
unfolding youtube_raw youtube_response
fetch_youtube post_url d =
    if d.fails
    then none
    else if is_rate (youtube_raw d).click_through_rate
    then some (youtube_response post_url d (youtube_raw d))
    else none

unfoldable pub fetch_reddit_metrics : Text → Drawn → Option PlatformApiResponse
unfolding reddit_raw reddit_response
fetch_reddit_metrics post_url d =
    if d.fails
    then none
    else if at_most_one (reddit_raw d).upvote_ratio
    then some (reddit_response post_url d (reddit_raw d))
    else none

unfoldable pub fetch_mock : Integration → Text → Drawn → Option PlatformApiResponse
unfolding fetch_instagram fetch_tiktok fetch_x fetch_youtube fetch_reddit_metrics
fetch_mock instagram post_url d = fetch_instagram post_url d
fetch_mock tiktok post_url d = fetch_tiktok post_url d
fetch_mock x post_url d = fetch_x post_url d
fetch_mock youtube post_url d = fetch_youtube post_url d
fetch_mock reddit post_url d = fetch_reddit_metrics post_url d

abbrev pub fetch_from : Option Integration → Text → Drawn → Option PlatformApiResponse
fetch_from none post_url d = none
fetch_from (some i) post_url d = fetch_mock i post_url d

-- `PlatformIntegrationService.fetch_post_metrics`.
unfoldable pub fetch_post_metrics : Text → Text → Drawn → Option PlatformApiResponse
unfolding integration_of fetch_mock
fetch_post_metrics platform_name post_url d =
    fetch_from (integration_of (lower platform_name)) post_url d
