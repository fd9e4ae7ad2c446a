-- ===== src/Links/Pipeline.antt =====
-- The outcomes of `process_post_url`
-- (affiliate-reconciliation-backend/app/utils/link_processing.py).
use affiliate_platform.Prelude.{
  ◌≡◌, refl, Bool, true, false, Option, none, some, ◌⊎◌, inl, inr, Bool-cases, String, same_text,
  lower, Text, codes,
}
use affiliate_platform.Links.{
  Outcome, ok, error, clean_link, detect_platform, Site, is_reddit, instagram, meta, tiktok,
  youtube, process_post_url, process_clean, matched, normalized, tagged, Reply,
  normalize_reddit_link, validate_url_format, site_name, invalid_format, unknown_platform,
  platform_mismatch,
}

-- `detected.lower() == expected.lower()`.
abbrev pub names_site : Site → String → Bool
names_site s expected = same_text (lower (codes (site_name s))) (lower (codes expected))

abbrev pub Normalizes : (Text → Reply) → Text → Site → Text → Type 0
Normalizes api c s url =
    ((is_reddit s ≡ true) × (normalize_reddit_link api c ≡ ok url))
    ⊎ ((is_reddit s ≡ false) × (c ≡ url))

-- What an outcome says of the link: on success the steps that it passed, and otherwise the first
-- step that it failed.
abbrev pub Explains : (Text → Reply) → Text → String → Outcome (Text × Site) → Type 0
Explains api url expected (ok (t, s)) =
    (c : Text) × (clean_link url ≡ ok c)
    × (validate_url_format c ≡ true)
    × (detect_platform c ≡ some s)
    × (names_site s expected ≡ true)
    × Normalizes api c s t
Explains api url expected (error e) =
    (clean_link url ≡ error e)
    ⊎ ((c : Text) × (clean_link url ≡ ok c)
        × (((e ≡ invalid_format) × (validate_url_format c ≡ false))
            ⊎ ((e ≡ unknown_platform) × (detect_platform c ≡ none))
            ⊎ ((e ≡ platform_mismatch)
                × ((s : Site) × (detect_platform c ≡ some s) × (names_site s expected ≡ false)))
            ⊎ ((detect_platform c ≡ some Site.reddit) × (normalize_reddit_link api c ≡ error e))))

-- With the platform that was detected and expected.
Explains-tagged :
    (api : Text → Reply) (url : Text) (expected : String) (c : Text) (o : Outcome Text)
    → clean_link url ≡ ok c
    → validate_url_format c ≡ true
    → detect_platform c ≡ some Site.reddit
    → names_site Site.reddit expected ≡ true
    → normalize_reddit_link api c ≡ o
    → Explains api url expected (tagged Site.reddit o)
Explains-tagged api url expected c (ok t) hc hv hd hn ho = (c, hc, hv, hd, hn, inl (refl, ho))
Explains-tagged api url expected c (error e) hc hv hd hn ho = inr (c, hc, inr (inr (inr (hd, ho))))

Explains-normalized :
    (api : Text → Reply) (url : Text) (expected : String) (c : Text) (s : Site)
    → clean_link url ≡ ok c
    → validate_url_format c ≡ true
    → detect_platform c ≡ some s
    → names_site s expected ≡ true
    → Explains api url expected (normalized api c s)
Explains-normalized api url expected c Site.reddit hc hv hd hn =
    Explains-tagged api url expected c (normalize_reddit_link api c) hc hv hd hn refl
Explains-normalized api url expected c instagram hc hv hd hn = (c, hc, hv, hd, hn, inr (refl, refl))
Explains-normalized api url expected c meta hc hv hd hn = (c, hc, hv, hd, hn, inr (refl, refl))
Explains-normalized api url expected c tiktok hc hv hd hn = (c, hc, hv, hd, hn, inr (refl, refl))
Explains-normalized api url expected c youtube hc hv hd hn = (c, hc, hv, hd, hn, inr (refl, refl))
Explains-normalized api url expected c Site.x hc hv hd hn = (c, hc, hv, hd, hn, inr (refl, refl))

-- With the platform that was detected, if any.
Explains-matched :
    (api : Text → Reply) (url : Text) (expected : String) (c : Text) (o : Option Site)
    → clean_link url ≡ ok c
    → validate_url_format c ≡ true
    → detect_platform c ≡ o
    → Explains api url expected (matched api expected c o)
Explains-matched api url expected c none hc hv hd = inr (c, hc, inr (inl (refl, hd)))
Explains-matched api url expected c (some s) hc hv hd = elim (Bool-cases (names_site s expected)) [
  | inl e ↦ rw e (Explains-normalized api url expected c s hc hv hd e)
  | inr e ↦ rw e (inr (c, hc, inr (inr (inl (refl, (s, hd, e))))))
]

Explains-process_clean :
    (api : Text → Reply) (url : Text) (expected : String) (o : Outcome Text)
    → clean_link url ≡ o
    → Explains api url expected (process_clean api expected o)
Explains-process_clean api url expected (error e) hc = inl hc
Explains-process_clean api url expected (ok c) hc = elim (Bool-cases (validate_url_format c)) [
  | inl e ↦ rw e (Explains-matched api url expected c (detect_platform c) hc e refl)
  | inr e ↦ rw e (inr (c, hc, inl (refl, e)))
]

-- For every link, platform and answer of Reddit, `process_post_url` returns a URL only through
-- its steps: the link is cleaned, has a scheme and a netloc, belongs to a platform whose name is the
-- expected one up to case, and for Reddit is normalised. An error names a step that failed.
pub process_post_url-Explains :
    (api : Text → Reply) (url : Text) (expected : String)
    → Explains api url expected (process_post_url api url expected)
unfolding process_post_url
process_post_url-Explains api url expected =
    Explains-process_clean api url expected (clean_link url) refl
