-- ===== src/Discord/Examples.antt =====
-- Commands and a lifecycle of the bot on small inputs.
use affiliate_platform.Prelude.{
  ◌≡◌, refl, ℤ, pos, negsuc, String, Bool, true, false, Option, none, some, [], ◌∷◌, same,
  if◌then◌else◌, codes,
}
use affiliate_platform.Enums.{affiliate}
use affiliate_platform.Tables.{User, first}
use affiliate_platform.Discord.{
  Python, Settings, ApiRequest, HttpReply, replied, network_error, Command, submit_post_cmd,
  update_post_cmd, metrics_path, post, put,
}
use affiliate_platform.Discord.Lifecycle.{
  Launch, start_call, after_calls, not_started, ensure_guild_commands, global, guild,
}
use affiliate_platform.Discord.Requests.{CommandMeans, commands-CommandMeans}
use affiliate_platform.Discord.Replies.{AnyId, IsIdOf}

-- The values of a reply: {"message": "Stored", "data": {"post_id": 7}} and its parts.
data Value : Type 0 where
  reply inner seven stored : Value

abbrev value_get : Value → String → Option Value
value_get reply key =
    if same key "message" then some stored else if same key "data" then some inner else none
value_get inner key = if same key "post_id" then some seven else none
value_get _ key = none

abbrev is_dict : Value → Bool
is_dict reply = true
is_dict inner = true
is_dict _ = false

abbrev shown : Value → String
shown stored = "Stored"
shown seven = "7"
shown _ = "{...}"

abbrev shown_int : ℤ → String
shown_int (pos n) = "12"
shown_int (negsuc n) = "-1"

abbrev python : Python Value
python = record {
  loads = λ s. if same s "{reply}" then some reply else none;
  is_true = λ j. true;
  is_dict = is_dict;
  get = value_get;
  shown = shown;
  shown_int = shown_int;
}

abbrev settings : Settings
settings = record { internal_token = some "secret"; api_base_url = codes "http://host/api/v1/" }

abbrev bob : User
bob = record {
  id = 2;
  name = "Bob";
  email = "bob@mail.example";
  api_key = none;
  discord_user_id = some "42";
  is_active = true;
  role = affiliate;
  client_id = none;
  trust_score = none;
  total_submissions = 0;
}

abbrev command : Command
command = record {
  campaign_id = pos 1;
  platform_id = pos 2;
  post_url = "https://reddit.com/r/a";
  claimed_views = pos 100;
  claimed_clicks = negsuc 0;
  claimed_conversions = pos 0;
  title = some "";
  description = none;
  evidence_json = some "not json";
}

-- The backend stores the post, and refuses the new metrics.
abbrev backend : ApiRequest Value → HttpReply
backend r = elim r.http_method [ post ↦ replied 200 "{reply}" | put ↦ replied 422 "" ]

stored_message :
    (submit_post_cmd python settings (bob ∷ []) backend "42" command).1
    ≡ some "✅ Stored (post_id=7)"
unfolding submit_post_cmd first
stored_message = refl

-- A failure whose body has no message is shown as None, also if the network failed.
failure_messages :
    ((update_post_cmd python settings (bob ∷ []) backend "42" (pos 12) command).1
      ≡ some "❌ Update failed: None")
    × ((submit_post_cmd python settings (bob ∷ []) (λ r. network_error "timeout") "42" command).1
        ≡ some "❌ Submission failed: None")
    × ((submit_post_cmd python settings [] backend "42" command).0 ≡ [])
unfolding submit_post_cmd update_post_cmd first
failure_messages = (refl, refl, refl)

commands-CommandMeans_example :
    CommandMeans python settings
      (bob ∷ [])
      "42"
      backend
      post
      "/submissions/"
      command
      "❌ Submission failed: "
      (AnyId python)
      (submit_post_cmd python settings (bob ∷ []) backend "42" command)
    × CommandMeans python settings
        (bob ∷ [])
        "42"
        backend
        put
        (metrics_path python (pos 12))
        command
        "❌ Update failed: "
        (IsIdOf python (pos 12))
        (update_post_cmd python settings (bob ∷ []) backend "42" (pos 12) command)
commands-CommandMeans_example =
    commands-CommandMeans python settings (bob ∷ []) "42" refl (refl, tt) backend command (pos 12)

abbrev launch : Launch
launch = record { enable_discord_bot = true; discord_bot_token = some "token" }

started_twice :
    after_calls (start_call launch ∷ start_call launch ∷ []) not_started
    ≡ record { bot_started = true; launched = 1; closes = 0 }
unfolding after_calls
started_twice = refl

scopes :
    (ensure_guild_commands (λ s. false) (5 ∷ 6 ∷ []) ≡ (guild 5, false) ∷ (guild 6, false) ∷ [])
    × (ensure_guild_commands (λ s. true) [] ≡ (global, true) ∷ [])
unfolding ensure_guild_commands
scopes = (refl, refl)
