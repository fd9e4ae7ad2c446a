-- ===== src/Discord.antt =====
-- The Discord bot, affiliate-reconciliation-backend/app/services/discord_bot.py. The packages json,
-- aiohttp and discord are parameters: what Python does with parsed values, how the backend replies to
-- a request, and whether a synchronisation or the end of the client raises.
mod Records
pub mod Lifecycle
pub mod Replies
pub mod Requests
mod Examples
unfoldable pub use Records.*
use affiliate_platform.Prelude.{
  ℕ, ℤ, String, Bool, true, false, not, ◌&&◌, Option, none, some, List, [], ◌∷◌, ◌++◌, leb, ltb,
  is_some, if◌then◌else◌, followed_by, same, codes, rstrip,
}
use affiliate_platform.Access.{bot, matches}
use affiliate_platform.Links.{is_slash}
use affiliate_platform.Tables.{User, first}

-- The filter of `_discord_affiliate_exists`.
abbrev pub is_linked : String → User → Bool
is_linked user_id u = matches u.discord_user_id user_id && u.is_active

unfoldable pub discord_affiliate_exists : List User → String → Bool
unfolding first
discord_affiliate_exists users user_id = is_some (first (is_linked user_id) users)

module _ {J : Type 0} (py : Python J) where
  -- `json.loads(text) if text else {}`, or the raw text.
  unfoldable pub body_of : String → ApiData J
  body_of text =
      if same text ""
      then empty_dict
      else elim (py.loads text) [ none ↦ raw text | some j ↦ parsed j ]

  -- `data or {...}`.
  unfoldable pub or_status : ℕ → String → ApiData J → ApiData J
  or_status status text empty_dict = status_error status text
  or_status status text (parsed j) = if py.is_true j then parsed j else status_error status text
  or_status status text d = d

  -- What `_api_request` makes of a reply.
  unfoldable pub received : HttpReply → Bool × ApiData J
  unfolding body_of or_status
  received (network_error message) = (false, error_only message)
  received (replied status text) =
      if leb 200 status && ltb status 300
      then (true, body_of text)
      else (false, or_status status text (body_of text))

  unfoldable pub parse_evidence : Option String → Option (Evidence J)
  parse_evidence none = none
  parse_evidence (some s) =
      if same s ""
      then none
      else elim (py.loads s) [ none ↦ some (note s) | some j ↦ some (parsed_evidence j) ]

  -- `if evidence:`.
  unfoldable pub given_evidence : Option (Evidence J) → Option (Evidence J)
  given_evidence none = none
  given_evidence (some (note s)) = some (note s)
  given_evidence (some (parsed_evidence j)) =
      if py.is_true j then some (parsed_evidence j) else none

  unfoldable pub payload_of : Command → Payload J
  unfolding parse_evidence given_evidence
  payload_of c = record {
    campaign_id = c.campaign_id;
    platform_id = c.platform_id;
    post_url = c.post_url;
    claimed_views = c.claimed_views;
    claimed_clicks = c.claimed_clicks;
    claimed_conversions = c.claimed_conversions;
    submission_method = "DISCORD";
    title = given_text c.title;
    description = given_text c.description;
    evidence_data = given_evidence (parse_evidence c.evidence_json);
  }

  -- An optional value between the braces of a formatted text.
  abbrev pub shown_or_none : Option J → String
  shown_or_none none = "None"
  shown_or_none (some j) = py.shown j

  -- `data.get("message", default)`, with none where `data` has no `get`.
  unfoldable pub message_or : String → ApiData J → Option String
  message_or default (parsed j) =
      if py.is_dict j
      then elim (py.get j "message") [ none ↦ some default | some m ↦ some (py.shown m) ]
      else none
  message_or default d = some default

  -- `data.get("data", {}).get("post_id")`, with none where the inner value has no `get`.
  unfoldable pub post_id_of : ApiData J → Option String
  post_id_of (parsed j) =
      if py.is_dict j
      then elim (py.get j "data") [
        | none ↦ some "None"
        | some inner ↦
            if py.is_dict inner then some (shown_or_none (py.get inner "post_id")) else none
      ]
      else some "None"
  post_id_of d = some "None"

  -- `data.get("message") if isinstance(data, dict) else data`.
  unfoldable pub detail_of : ApiData J → String
  detail_of (parsed j) = if py.is_dict j then shown_or_none (py.get j "message") else py.shown j
  detail_of d = "None"

  -- What a command does: the requests that reach the backend, and the message to the user, with none
  -- for an exception.
  abbrev pub Effects : Type 0
  Effects = List (ApiRequest J) × Option String

  -- `_api_request` for the two commands, with the replies of the backend.
  unfoldable pub api_request :
      Settings
      → (ApiRequest J → HttpReply)
      → HttpMethod
      → String
      → String
      → Payload J
      → List (ApiRequest J) × Bool × ApiData J
  unfolding received rstrip
  api_request settings http http_method path user_id payload = elim settings.internal_token [
    | none ↦ ([], false, error_only "BOT_INTERNAL_TOKEN not configured")
    | some token ↦
        let r : ApiRequest J = record {
          http_method = http_method;
          url = rstrip is_slash settings.api_base_url ++ codes path;
          authorization = bot token;
          discord_user_id = user_id;
          payload = payload;
        } in
        let (ok, d) = received (http r) in (r ∷ [], ok, d)
  ]

  abbrev pub unlinked_text : String
  unlinked_text = "You are not linked to an affiliate account. Please contact support."

  abbrev pub accepted_text : Option String → Option String → Option String
  accepted_text (some message) (some post_id) =
      some (
        followed_by "✅ " (followed_by message (followed_by " (post_id=" (followed_by post_id ")"))))
  accepted_text _ _ = none

  -- The message that ends `submit_post_cmd`.
  unfoldable pub submit_text : Bool → ApiData J → Option String
  unfolding message_or post_id_of detail_of
  submit_text true d = accepted_text (message_or "Submission accepted" d) (post_id_of d)
  submit_text false d = some (followed_by "❌ Submission failed: " (detail_of d))

  -- The message that ends `update_post_cmd`.
  unfoldable pub update_text : ℤ → Bool → ApiData J → Option String
  unfolding message_or detail_of
  update_text post_id true d =
      accepted_text (message_or "Update accepted" d) (some (py.shown_int post_id))
  update_text post_id false d = some (followed_by "❌ Update failed: " (detail_of d))

  unfoldable pub submit_post_cmd :
      Settings → List User → (ApiRequest J → HttpReply) → String → Command → Effects
  unfolding api_request submit_text payload_of discord_affiliate_exists
  submit_post_cmd settings users http user_id c =
      let (sent, ok, d) = api_request settings http post "/submissions/" user_id (payload_of c) in
      if discord_affiliate_exists users user_id
      then (sent, submit_text ok d)
      else ([], some unlinked_text)

  abbrev pub metrics_path : ℤ → String
  metrics_path post_id = followed_by "/submissions/" (followed_by (py.shown_int post_id) "/metrics")

  unfoldable pub update_post_cmd :
      Settings → List User → (ApiRequest J → HttpReply) → String → ℤ → Command → Effects
  unfolding api_request update_text payload_of discord_affiliate_exists
  update_post_cmd settings users http user_id post_id c =
      let (sent, ok, d) =
        api_request settings http put (metrics_path post_id) user_id (payload_of c) in
      if discord_affiliate_exists users user_id
      then (sent, update_text post_id ok d)
      else ([], some unlinked_text)
