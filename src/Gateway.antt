-- ===== src/Gateway.antt =====
-- The way of a request through the middleware and the exception handlers of
-- affiliate-reconciliation-backend/app/main.py. The router and the endpoints behind it are a
-- parameter: what they answer or raise, given the requests that reached them so far. Starlette runs
-- the middleware that was added last first, and the handler of `Exception` outside all of them. Times
-- are whole seconds, as the rate limiter reads them; the log lines are left out.
pub mod Admission
pub mod Responses
pub mod Lifecycle
pub mod Health
mod Examples
use affiliate_platform.Prelude.{
  ℕ, ◌-◌, String, Bool, ◌&&◌, ◌||◌, Option, none, some, List, [], ◌∷◌, map, leb, ltb, if◌then◌else◌,
  same, Dict, lookup, insert, Text, codes, starts_with, contains, same_text, get_or_else,
  followed_by,
}
use affiliate_platform.Config.{
  RateLimitSetting, default_setting, rate_limit_settings, role_overrides,
}
use affiliate_platform.RateLimiter.{Buckets, Meta, check_and_increment}
use affiliate_platform.Tables.{User, first}
use affiliate_platform.Access.{AuthHeader, bearer, bot, neither, has_key}

-- A request, with the headers that the middleware reads, the clock, the id that `uuid4` would give,
-- and the measured time as a text. `users` is the table that the look-up of the role sees, and none
-- where it raises.
pub record Incoming : Type 0 where
  pub path : Text
  pub method : Text
  pub authorization : AuthHeader
  pub discord_id : Option String
  pub request_id : Option String
  pub new_id : String
  pub now : ℕ
  pub process_time : String
  pub users : Option (List User)

pub record RateHeaders : Type 0 where
  pub limit : ℕ
  pub remaining : ℕ
  pub reset : ℕ

-- A response: its status, the `message`, `request_id` and `details` of its body, where it has them, and
-- its headers.
pub record Response : Type 0 where
  pub status_code : ℕ
  pub message : Option String
  pub request_id : Option String
  pub details : Option (List String)
  pub rate : Option RateHeaders
  pub headers : Dict String

-- What an endpoint does: it answers, or raises, with the texts of `exc.errors()` or the detail.
pub data Served : Type 0 where
  answered : Response → Served
  validation_error : List String → Served
  http_exception : ℕ → String → Served
  unexpected : Served

-- What the middleware gets from `call_next`.
pub data CallOutcome : Type 0 where
  responded : Response → CallOutcome
  raised : CallOutcome

abbrev upper_code : ℕ → ℕ
upper_code c = if leb b'a' c && leb c b'z' then c - 32 else c

abbrev pub is_query : Text → Bool
is_query path =
    contains (codes "results") path
    || (contains (codes "logs") path || contains (codes "queue") path)

unfoldable pub category_of : Text → Text → String
unfolding contains
category_of path method =
    if starts_with (codes "/api/v1/submissions") path
    then "submission"
    else if starts_with (codes "/api/v1/reconciliation/run") path
        && same_text (map upper_code method) (codes "POST")
    then "recon_trigger"
    else if starts_with (codes "/api/v1/reconciliation/") path && is_query path
    then "recon_query"
    else "default"

abbrev pub category : Incoming → String
category r = category_of r.path r.method

unfoldable pub setting_of : String → RateLimitSetting
unfolding lookup
setting_of c = get_or_else (lookup c rate_limit_settings) default_setting

-- The key under which a request is counted.
unfoldable pub key_of : Incoming → String
key_of r = elim r.authorization [
  | bearer api_key ↦ api_key
  | bot token ↦ followed_by "bot:" (get_or_else r.discord_id "bot")
  | neither ↦ "public"
]

abbrev pub overridden : ℕ → Option User → ℕ
overridden limit none = limit
overridden limit (some u) =
    let override = role_overrides u.role in if ltb 0 override then override else limit

abbrev pub looked_up : ℕ → String → Option (List User) → ℕ
looked_up limit api_key none = limit
looked_up limit api_key (some users) = overridden limit (first (has_key api_key) users)

abbrev pub limit_for_bearer : ℕ → AuthHeader → Option (List User) → ℕ
limit_for_bearer limit (bearer api_key) users = looked_up limit api_key users
limit_for_bearer limit (bot token) users = limit
limit_for_bearer limit neither users = limit

-- The role changes the limit of the category `default` only.
unfoldable pub limit_of : Incoming → ℕ
unfolding setting_of category_of first
limit_of r =
    let limit = (setting_of (category r)).limit in
    if same (category r) "default" then limit_for_bearer limit r.authorization r.users else limit

abbrev pub window_seconds_of : Incoming → ℕ
window_seconds_of r = (setting_of (category r)).window_seconds

abbrev pub too_many : Meta → Response
too_many m = record {
  status_code = 429;
  message = some (followed_by "Rate limit exceeded for category '" (followed_by m.category "'"));
  request_id = none;
  details = none;
  rate = some (record { limit = m.limit; remaining = 0; reset = m.reset_epoch });
  headers = [];
}

abbrev pub with_rate : Meta → CallOutcome → CallOutcome
with_rate m raised = raised
with_rate m (responded p) = responded (record p {
  rate = some (record { limit = m.limit; remaining = m.remaining; reset = m.reset_epoch });
})

-- `request.headers.get("X-Request-ID") or str(uuid.uuid4())`
abbrev pub id_of : Incoming → String
id_of r = elim r.request_id [
  | none ↦ r.new_id
  | some given ↦ if same given "" then r.new_id else given
]

-- `validation_exception_handler` and `http_exception_handler`; other exceptions go on.
abbrev pub handled : Incoming → Served → CallOutcome
handled r (answered p) = responded p
handled r (validation_error errors) = responded (record {
  status_code = 422;
  message = some "Request validation failed";
  request_id = some (id_of r);
  details = some errors;
  rate = none;
  headers = [];
})
handled r (http_exception status detail) = responded (record {
  status_code = status;
  message = some detail;
  request_id = some (id_of r);
  details = none;
  rate = none;
  headers = [];
})
handled r unexpected = raised

-- The buckets, and the requests that reached the router, the last one first.
pub record Gateway : Type 0 where
  pub buckets : Buckets
  pub seen : List Incoming

module _ (router : List Incoming → Incoming → Served) where
  abbrev pub rate_limited : Gateway → Incoming → Buckets × Bool × Meta → Gateway × CallOutcome
  rate_limited g r (bs, allowed, m) =
      if allowed
      then (record { buckets = bs; seen = r ∷ g.seen }, with_rate m (handled r (router g.seen r)))
      else (record g { buckets = bs }, responded (too_many m))

  unfoldable pub rate_limit_middleware : Gateway → Incoming → Gateway × CallOutcome
  unfolding key_of limit_of check_and_increment
  rate_limit_middleware g r = rate_limited g r (
      check_and_increment g.buckets r.now (key_of r) (category r) (limit_of r)
        (window_seconds_of r))

abbrev pub with_context : Incoming → Response → Response
with_context r p = record p {
  headers = insert "X-XSS-Protection" "1; mode=block" (
      insert "X-Frame-Options" "DENY" (
        insert "X-Content-Type-Options" "nosniff"
          (insert "X-Process-Time" r.process_time (insert "X-Request-ID" (id_of r) p.headers))));
}

abbrev pub add_request_context_and_logging : Incoming → CallOutcome → CallOutcome
add_request_context_and_logging r raised = raised
add_request_context_and_logging r (responded p) = responded (with_context r p)

-- `global_exception_handler`.
abbrev pub internal_error : Incoming → Response
internal_error r = record {
  status_code = 500;
  message = some "Internal server error";
  request_id = some (id_of r);
  details = none;
  rate = none;
  headers = [];
}

abbrev pub global_exception_handler : Incoming → CallOutcome → Response
global_exception_handler r raised = internal_error r
global_exception_handler r (responded p) = p

-- A request, from the outside to the router and back.
unfoldable pub serve : (List Incoming → Incoming → Served) → Gateway → Incoming → Gateway × Response
unfolding rate_limit_middleware insert
serve router g r =
    let (g', o) = rate_limit_middleware router g r in
    (g', global_exception_handler r (add_request_context_and_logging r o))

unfoldable pub serve_all : (List Incoming → Incoming → Served) → Gateway → List Incoming → Gateway
unfolding serve
serve_all router g [] = g
serve_all router g (r ∷ rs) = serve_all router (serve router g r).0 rs
