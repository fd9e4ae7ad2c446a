-- ===== src/Links.antt =====
-- The processing of a submitted link
-- (affiliate-reconciliation-backend/app/utils/link_processing.py and `normalize_reddit_link` of
-- affiliate-reconciliation-backend/app/integrations/reddit.py). Reddit's reply is a parameter.
pub mod Urls
pub mod Spans
pub mod RoundTrip
pub mod Cleaning
pub mod Pipeline
mod Examples
unfoldable pub use Urls.*
use affiliate_platform.Prelude.{
  ℕ, ◌*◌, String, Bool, true, false, not, ◌&&◌, ◌||◌, Option, none, some, List, [], ◌∷◌, ◌++◌, ◌==◌,
  if◌then◌else◌, is_some, Text, codes, same_text, starts_with, skip, contains, take_while,
  drop_while, rstrip, lower, is_space, is_alphanumeric,
}

-- The ValueErrors.
pub data LinkError : Type 0 where
  empty_url invalid_url invalid_format unknown_platform platform_mismatch : LinkError
  reddit_failed : LinkError

pub data Outcome (A : Type 0) : Type 0 where
  ok : A → Outcome A
  error : LinkError → Outcome A

-- `url.strip()`.
unfoldable pub strip : Text → Text
unfolding drop_while rstrip
strip t = rstrip is_space (drop_while is_space t)

abbrev pub is_slash : ℕ → Bool
is_slash c = c == b'/'

unfoldable pub without_slashes : Text → Text
unfolding rstrip
without_slashes t =
    if same_text t (codes "https://") || same_text t (codes "http://") then t else rstrip is_slash t

abbrev pub cleaned : Option Url → Outcome Text
cleaned none = error invalid_url
cleaned (some u) = ok (without_slashes (show_url (record u { query = []; fragment = [] })))

unfoldable pub clean_link : Text → Outcome Text
unfolding strip without_slashes parse_url show_url split_scheme split_netloc parse_rest keep
    drop_while
clean_link url = if is_empty (strip url) then error empty_url else cleaned (parse_url (strip url))

-- The platforms that are recognised.
pub data Site : Type 0 where
  reddit instagram meta tiktok youtube x : Site

abbrev pub site_name : Site → String
site_name reddit = "reddit"
site_name instagram = "instagram"
site_name meta = "meta"
site_name tiktok = "tiktok"
site_name youtube = "youtube"
site_name x = "x"

abbrev pub contains_one_of : List String → Text → Bool
contains_one_of [] t = false
contains_one_of (s ∷ l) t = contains (codes s) t || contains_one_of l t

unfoldable pub detect_platform : Text → Option Site
unfolding contains
detect_platform url =
    let t = lower url in
    if contains_one_of ("reddit.com" ∷ "redd.it" ∷ "old.reddit.com" ∷ []) t
    then some reddit
    else if contains_one_of ("instagram.com" ∷ "instagr.am" ∷ []) t
    then some instagram
    else if contains_one_of ("facebook.com" ∷ "fb.com" ∷ "m.facebook.com" ∷ []) t
    then some meta
    else if contains_one_of ("tiktok.com" ∷ "vm.tiktok.com" ∷ []) t
    then some tiktok
    else if contains_one_of ("youtube.com" ∷ "youtu.be" ∷ "m.youtube.com" ∷ []) t
    then some youtube
    else if contains_one_of ("twitter.com" ∷ "x.com" ∷ "t.co" ∷ []) t
    then some x
    else none

abbrev pub has_scheme_and_netloc : Option Url → Bool
has_scheme_and_netloc none = false
has_scheme_and_netloc (some u) = not (is_empty u.scheme) && not (is_empty u.netloc)

unfoldable pub validate_url_format : Text → Bool
unfolding parse_url
validate_url_format url = has_scheme_and_netloc (parse_url url)

-- `re.search`: the first position at which a pattern matches, with the group that it captures.
unfoldable pub search_pattern : (Text → Option Text) → Text → Option Text
search_pattern pattern_at [] = pattern_at []
search_pattern pattern_at (c ∷ t) =
    let later = search_pattern pattern_at t in
    elim (pattern_at (c ∷ t)) [ some group ↦ some group | none ↦ later ]

-- A text behind a fixed prefix, and `[a-zA-Z0-9]+` there.
abbrev pub behind : Text → Text → Option Text
behind part t = if starts_with part t then some (skip part t) else none

abbrev pub some_letters : Option Text → Option Text
some_letters none = none
some_letters (some t) =
    if is_empty (take_while is_alphanumeric t) then none else some (take_while is_alphanumeric t)

-- `[^/]+` and a fixed text behind it.
abbrev pub behind_segment : Text → Option Text → Option Text
behind_segment part none = none
behind_segment part (some t) =
    if is_empty (before b'/' t) then none else behind part (drop_while (is_other b'/') t)

unfoldable pub canonical_pattern : Text → Option Text
unfolding take_while drop_while before
canonical_pattern t =
    some_letters (behind_segment (codes "/comments/") (behind (codes "reddit.com/r/") t))

unfoldable pub share_pattern : Text → Option Text
unfolding take_while drop_while before
share_pattern t = some_letters (behind_segment (codes "/s/") (behind (codes "reddit.com/r/") t))

unfoldable pub short_pattern : Text → Option Text
unfolding take_while
short_pattern t = some_letters (behind (codes "redd.it/") t)

-- The share ID: the first of the two patterns that is found.
abbrev pub or_else : Option Text → Option Text → Option Text
or_else (some t) o = some t
or_else none o = o

unfoldable pub find_share_id : Text → Option Text
unfolding search_pattern share_pattern short_pattern
find_share_id url = or_else (search_pattern share_pattern url) (search_pattern short_pattern url)

-- What the request answers: a status and the permalink of the first child, if the response has
-- one, or any exception.
pub data Reply : Type 0 where
  answered : ℕ → Option Text → Reply
  raised : Reply

abbrev pub resolved : Reply → Outcome Text
resolved raised = error reddit_failed
resolved (answered status none) = error reddit_failed
resolved (answered status (some permalink)) =
    if status == 200
    then ok (rstrip is_slash (codes "https://reddit.com" ++ permalink))
    else error reddit_failed

abbrev pub resolve_share_id : (Text → Reply) → Text → Option Text → Outcome Text
resolve_share_id api url none = ok url
resolve_share_id api url (some share_id) = resolved (api share_id)

unfoldable pub normalize_reddit_link : (Text → Reply) → Text → Outcome Text
unfolding canonical_pattern find_share_id search_pattern rstrip
normalize_reddit_link api url =
    if is_some (search_pattern canonical_pattern url)
    then ok url
    else resolve_share_id api url (find_share_id url)

abbrev pub is_reddit : Site → Bool
is_reddit reddit = true
is_reddit _ = false

abbrev pub tagged : Site → Outcome Text → Outcome (Text × Site)
tagged s (ok url) = ok (url, s)
tagged s (error e) = error e

abbrev pub normalized : (Text → Reply) → Text → Site → Outcome (Text × Site)
normalized api url s = if is_reddit s then tagged s (normalize_reddit_link api url) else ok (url, s)

-- The steps behind the cleaning, with the platform that was detected.
abbrev pub matched : (Text → Reply) → String → Text → Option Site → Outcome (Text × Site)
matched api expected url none = error unknown_platform
matched api expected url (some s) =
    if same_text (lower (codes (site_name s))) (lower (codes expected))
    then normalized api url s
    else error platform_mismatch

abbrev pub process_clean : (Text → Reply) → String → Outcome Text → Outcome (Text × Site)
process_clean api expected (error e) = error e
process_clean api expected (ok url) =
    if validate_url_format url
    then matched api expected url (detect_platform url)
    else error invalid_format

unfoldable pub process_post_url : (Text → Reply) → Text → String → Outcome (Text × Site)
unfolding clean_link validate_url_format detect_platform normalize_reddit_link
process_post_url api url expected_platform = process_clean api expected_platform (clean_link url)
