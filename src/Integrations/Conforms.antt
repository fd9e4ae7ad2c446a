-- ===== src/Integrations/Conforms.antt =====
-- The answers of the mock integrations conform to their schemas, and fit together
-- (affiliate-reconciliation-backend/app/integrations, models/schemas/platform.py).
use affiliate_platform.Prelude.{
  true, false, ℕ, String, Ratio, mul_mono, le→leb, inr, inl, ◌==◌, ◌⊎◌, Bool-cases, ◌≡◌, arith, ◌≤◌,
  refl,
}
use affiliate_platform.Integrations.{
  none, some, lower, Option, Text, Integration, reddit, instagram, tiktok, youtube, x,
  PlatformApiResponse, integration_of, fetch_mock, fetch_from, fetch_post_metrics, rate_or_default,
  at_most_one, instagram_raw, instagram_response, tiktok_raw, tiktok_response, youtube_raw,
  youtube_response, x_raw, x_response, reddit_raw, reddit_response,
}
use affiliate_platform.Integrations.Draws.{Drawn, Between, scaled-le, le-scaled}

-- The bounds that the code gives to `random`, for the draws that matter here.
abbrev pub InRange : Integration → Drawn → Type 0
InRange instagram d =
    (1000 ≤ d.base)
    × Between 1050 1600 (d.factor 0)
    × Between 10 40 (d.factor 4)
    × Between 2 15 (d.factor 5)
    × Between 1 8 (d.factor 6)
InRange tiktok d = (5000 ≤ d.base) × Between 5 30 (d.factor 2) × Between 1 8 (d.factor 3)
InRange youtube d = (1000 ≤ d.base) × (d.whole 0 ≤ 100) × Between 20 120 (d.factor 3)
InRange x d =
    (2000 ≤ d.base)
    × Between 3 20 (d.factor 4)
    × Between 1 10 (d.factor 5)
    × Between 2 15 (d.factor 6)
InRange reddit d =
    (100 ≤ d.base) × (d.whole 2 ≤ 15) × Between 20 80 (d.factor 2) × Between 750 980 (d.factor 3)

abbrev pub name_of : Integration → String
name_of reddit = "reddit"
name_of instagram = "instagram"
name_of tiktok = "tiktok"
name_of youtube = "youtube"
name_of x = "x"

-- A response of this integration for this post: there are views, and no more clicks or conversions
-- than views.
pub record Conforms (i : Integration) (post_url : Text) (p : PlatformApiResponse) : Type 0 where
  pub platform_name : p.platform_name ≡ name_of i
  pub url : p.post_url ≡ post_url
  pub has_views : 100 ≤ p.views
  pub clicks : p.clicks ≤ p.views
  pub conversions : p.conversions ≤ p.views

rate-Between : (r : Ratio) → Between 20 120 r → Between 20 120 (rate_or_default (some r))
rate-Between r h = elim (Bool-cases (r.num == 0)) [
  | inl e ↦ rw e (record { positive = omega arith; above = omega arith; below = omega arith })
  | inr e ↦ rw e h
]

rate-at_most_one : (lo hi : ℕ) (r : Ratio) → hi ≤ 1000 → Between lo hi r → at_most_one r ≡ true
rate-at_most_one lo hi r small h =
    le→leb r.num r.den (omega (arith, h.below, mul_mono hi 1000 r.den small))

module _ (post_url : Text) (d : Drawn) where
  instagram-Conforms :
      InRange instagram d
      → Conforms instagram post_url (instagram_response post_url d (instagram_raw d))
  unfolding instagram_response instagram_raw
  instagram-Conforms (b, f0, f4, f5, f6) =
      let reach =
        le-scaled d.base 1600 (d.factor 0)
          (record { positive = f0.positive; above = omega (arith, f0.above); below = f0.below }) in
      record {
        platform_name = refl;
        url = refl;
        has_views = omega (arith, b, reach);
        clicks = omega (arith, reach, scaled-le d.base 1 8 (d.factor 6) f6);
        conversions = omega (
          arith,
          reach,
          scaled-le d.base 10 40 (d.factor 4) f4,
          scaled-le d.base 2 15 (d.factor 5) f5,
        );
      }

  tiktok-Conforms :
      InRange tiktok d → Conforms tiktok post_url (tiktok_response post_url d (tiktok_raw d))
  unfolding tiktok_response tiktok_raw
  tiktok-Conforms (b, f2, f3) = record {
    platform_name = refl;
    url = refl;
    has_views = omega (arith, b);
    clicks = omega (arith, scaled-le d.base 1 8 (d.factor 3) f3);
    conversions = omega (arith, scaled-le d.base 5 30 (d.factor 2) f2);
  }

  youtube-Conforms :
      InRange youtube d → Conforms youtube post_url (youtube_response post_url d (youtube_raw d))
  unfolding youtube_response youtube_raw
  youtube-Conforms (b, w, f3) = record {
    platform_name = refl;
    url = refl;
    has_views = omega (arith, b);
    clicks = omega (
      arith,
      scaled-le d.base 20 120 (rate_or_default (some (d.factor 3))) (rate-Between (d.factor 3) f3),
    );
    conversions = omega (arith, b, w);
  }

  x-Conforms : InRange x d → Conforms x post_url (x_response post_url d (x_raw d))
  unfolding x_response x_raw
  x-Conforms (b, f4, f5, f6) = record {
    platform_name = refl;
    url = refl;
    has_views = omega (arith, b);
    clicks =
        omega (arith, scaled-le d.base 1 10 (d.factor 5) f5, scaled-le d.base 2 15 (d.factor 6) f6);
    conversions = omega (arith, scaled-le d.base 3 20 (d.factor 4) f4);
  }

  reddit-Conforms :
      InRange reddit d → Conforms reddit post_url (reddit_response post_url d (reddit_raw d))
  unfolding reddit_response reddit_raw
  reddit-Conforms (b, w, f2, f3) = record {
    platform_name = refl;
    url = refl;
    has_views = omega (arith, b);
    clicks = omega (arith, scaled-le d.base 20 80 (d.factor 2) f2);
    conversions = omega (arith, b, w);
  }

  -- No schema refuses what is drawn.
  fetch_mock-Conforms :
      (i : Integration)
      → InRange i d
      → d.fails ≡ false
      → (p : PlatformApiResponse) × (fetch_mock i post_url d ≡ some p) × Conforms i post_url p
  unfolding fetch_mock
  fetch_mock-Conforms instagram h e =
      (instagram_response post_url d (instagram_raw d), rw e refl, instagram-Conforms h)
  fetch_mock-Conforms tiktok h e =
      (tiktok_response post_url d (tiktok_raw d), rw e refl, tiktok-Conforms h)
  fetch_mock-Conforms x h e = (x_response post_url d (x_raw d), rw e refl, x-Conforms h)
  fetch_mock-Conforms youtube h e = (
    youtube_response post_url d (youtube_raw d),
    rw (e, rate-at_most_one 20 120 (d.factor 3) (omega arith) h.2) refl,
    youtube-Conforms h,
  )
  fetch_mock-Conforms reddit h e = (
    reddit_response post_url d (reddit_raw d),
    rw (e, rate-at_most_one 750 980 (d.factor 3) (omega arith) h.3) refl,
    reddit-Conforms h,
  )

-- What the service answers for the integration that a name stands for.
abbrev pub FetchMeans : Text → Drawn → Option Integration → Option PlatformApiResponse → Type 0
FetchMeans post_url d none o = o ≡ none
FetchMeans post_url d (some i) o =
    ((d.fails ≡ true) × (o ≡ none))
    ⊎ ((d.fails ≡ false) × ((p : PlatformApiResponse) × (o ≡ some p) × Conforms i post_url p))

fetch_mock-none :
    (i : Integration) (post_url : Text) (d : Drawn)
    → d.fails ≡ true
    → fetch_mock i post_url d ≡ none
unfolding fetch_mock
fetch_mock-none instagram post_url d e = rw e refl
fetch_mock-none tiktok post_url d e = rw e refl
fetch_mock-none x post_url d e = rw e refl
fetch_mock-none youtube post_url d e = rw e refl
fetch_mock-none reddit post_url d e = rw e refl

fetch_from-FetchMeans :
    (post_url : Text) (d : Drawn) (o : Option Integration)
    → ((i : Integration) → o ≡ some i → InRange i d)
    → FetchMeans post_url d o (fetch_from o post_url d)
fetch_from-FetchMeans post_url d none h = refl
fetch_from-FetchMeans post_url d (some i) h = elim (Bool-cases d.fails) [
  | inl e ↦ inl (e, fetch_mock-none i post_url d e)
  | inr e ↦ inr (e, fetch_mock-Conforms post_url d i (h i refl) e)
]

-- With draws within the bounds that the code gives, the service answers nothing for a name that no
-- integration has, nothing after a simulated failure, and otherwise a response that conforms: no value
-- is refused by a schema.
pub fetch_post_metrics-FetchMeans :
    (platform_name post_url : Text) (d : Drawn)
    → ((i : Integration) → integration_of (lower platform_name) ≡ some i → InRange i d)
    → FetchMeans post_url d
        (integration_of (lower platform_name))
        (fetch_post_metrics platform_name post_url d)
unfolding fetch_post_metrics
fetch_post_metrics-FetchMeans platform_name post_url d h =
    fetch_from-FetchMeans post_url d (integration_of (lower platform_name)) h
