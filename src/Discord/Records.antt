-- ===== src/Discord/Records.antt =====
-- The data of the Discord bot (affiliate-reconciliation-backend/app/services/discord_bot.py).
use affiliate_platform.Prelude.{ℕ, ℤ, String, Bool, Option, none, some, if◌then◌else◌, same, Text}
use affiliate_platform.Access.{AuthHeader}

-- What json and Python do with parsed values: `json.loads`, with none for an error; truth; whether a
-- value is a dict, and its `get`; and the text of a value.
pub record Python (J : Type 0) : Type 0 where
  pub loads : String → Option J
  pub is_true : J → Bool
  pub is_dict : J → Bool
  pub get : J → String → Option J
  pub shown : J → String
  pub shown_int : ℤ → String

-- The configuration that the commands read.
pub record Settings : Type 0 where
  pub internal_token : Option String
  pub api_base_url : Text

-- The evidence of a request: parsed JSON, or a note.
pub data Evidence (J : Type 0) : Type 0 where
  parsed_evidence : J → Evidence J
  note : String → Evidence J

-- The payload of a request.
pub record Payload (J : Type 0) : Type 0 where
  pub campaign_id : ℤ
  pub platform_id : ℤ
  pub post_url : String
  pub claimed_views : ℤ
  pub claimed_clicks : ℤ
  pub claimed_conversions : ℤ
  pub submission_method : String
  pub title : Option String
  pub description : Option String
  pub evidence_data : Option (Evidence J)

pub data HttpMethod : Type 0 where
  post put : HttpMethod

pub record ApiRequest (J : Type 0) : Type 0 where
  pub http_method : HttpMethod
  pub url : Text
  pub authorization : AuthHeader
  pub discord_user_id : String
  pub payload : Payload J

-- How the backend replies: a status and a text, or an exception with its message.
pub data HttpReply : Type 0 where
  replied : ℕ → String → HttpReply
  network_error : String → HttpReply

-- The data that `_api_request` answers. All but parsed values are dicts.
pub data ApiData (J : Type 0) : Type 0 where
  parsed : J → ApiData J
  empty_dict : ApiData J
  raw : String → ApiData J
  status_error : ℕ → String → ApiData J
  error_only : String → ApiData J

-- The parameters of the two commands.
pub record Command : Type 0 where
  pub campaign_id : ℤ
  pub platform_id : ℤ
  pub post_url : String
  pub claimed_views : ℤ
  pub claimed_clicks : ℤ
  pub claimed_conversions : ℤ
  pub title : Option String
  pub description : Option String
  pub evidence_json : Option String

-- A text that is neither None nor empty.
abbrev pub given_text : Option String → Option String
given_text none = none
given_text (some s) = if same s "" then none else some s
