-- ===== src/Links/Examples.antt =====
-- Tests and examples on links.
use affiliate_platform.Links.Cleaning.{clean_link-HasNoMarks, HasNoMarks}
use affiliate_platform.Links.Pipeline.{process_post_url-Explains, Explains}
use affiliate_platform.Links.RoundTrip.{parse_url-show_url}
use affiliate_platform.Prelude.{◌≡◌, refl, some, Text, codes}
use affiliate_platform.Links.{
  [], show_url, Url, parse_url, ok, error, empty_url, clean_link, detect_platform, x, reddit,
  process_post_url, Reply, answered,
}

clean_link_drops_query :
    clean_link (codes " https://reddit.com/r/test/comments/123/?utm_source=share#comment")
    ≡ ok (codes "https://reddit.com/r/test/comments/123")
unfolding clean_link
clean_link_drops_query = refl

clean_link_blank : clean_link (codes "  ") ≡ error empty_url
unfolding clean_link
clean_link_blank = refl

-- A share link is resolved by the first match of the second pattern.
abbrev resolver : Text → Reply
resolver share_id = answered 200 (some (codes "/r/test/comments/77/"))

process_share_link :
    process_post_url resolver (codes "HTTPS://redd.it/ab1") "Reddit"
    ≡ ok (codes "https://reddit.com/r/test/comments/77", reddit)
unfolding process_post_url
process_share_link = refl

-- "x.com" occurs in the name of another site.
detect_platform_netflix : detect_platform (codes "https://netflix.com/title/1") ≡ some x
unfolding detect_platform
detect_platform_netflix = refl

abbrev shared : Url
shared = record {
  scheme = codes "https";
  netloc = codes "x.com";
  path = codes "/ann/1";
  query = codes "s=20";
  fragment = [];
}

-- A link with every part is read back.
shared_read_back : parse_url (show_url shared) ≡ some shared
shared_read_back =
    parse_url-show_url shared ((refl, refl), (refl, refl), (refl, refl, refl), (refl, refl))

clean_link-HasNoMarks_example : HasNoMarks (clean_link (codes "https://x.com/ann/1?s=20#top"))
clean_link-HasNoMarks_example = clean_link-HasNoMarks (codes "https://x.com/ann/1?s=20#top")

process_post_url-Explains_example :
    Explains resolver
      (codes "https://redd.it/ab1?x=1")
      "reddit"
      (process_post_url resolver (codes "https://redd.it/ab1?x=1") "reddit")
process_post_url-Explains_example =
    process_post_url-Explains resolver (codes "https://redd.it/ab1?x=1") "reddit"
