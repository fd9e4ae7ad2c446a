-- ===== src/Discord/Requests.antt =====
-- What the commands of the bot send, and how the backend authenticates it
-- (affiliate-reconciliation-backend/app/services/discord_bot.py and api/deps.py).
use affiliate_platform.Prelude.{
  ℤ, ◌≡◌, refl, ◌⊎◌, inl, inr, String, Bool, true, false, not, ◌&&◌, Option, none, some, List, [],
  ◌∷◌, rstrip, codes, ◌++◌, is_some, same, same_iff, All, Bool-cases, Option-cases, arith,
  if◌then◌else◌, followed_by,
}
use affiliate_platform.Enums.{affiliate}
use affiliate_platform.Access.{bot, matches, is_role, is_bot_user, get_submission_user}
use affiliate_platform.Links.{is_slash}
use affiliate_platform.Tables.{User, granted, first}
use affiliate_platform.Discord.Replies.{
  PayloadMeans, payload_of-PayloadMeans, ReplyMeans, AnyId, IsIdOf, submit_text-ReplyMeans,
  update_text-ReplyMeans,
}
use affiliate_platform.Discord.{
  Python, Settings, is_linked, discord_affiliate_exists, Payload, HttpMethod, post, put, ApiRequest,
  HttpReply, ApiData, error_only, Command, received, payload_of, detail_of, api_request,
  unlinked_text, submit_text, metrics_path, update_text, submit_post_cmd, update_post_cmd,
}

-- The first linked user is found by the backend's filter, too, if all linked users are affiliates.
linked-is_bot_user :
    (user_id : String) (users : List User)
    → All (λ u. (is_linked user_id u && not (is_role u.role affiliate)) ≡ false) users
    → is_some (first (is_linked user_id) users) ≡ true
    → (u : User) × (first (is_bot_user user_id) users ≡ some u)
      × (matches u.discord_user_id user_id ≡ true)
unfolding first
linked-is_bot_user user_id [] h e = cc
linked-is_bot_user user_id (u ∷ users) h e = elim (Bool-cases (is_bot_user user_id u)) [
  | inl k ↦ rw k (u, refl, ground arith)
  | inr k ↦
      let skipped : is_linked user_id u ≡ false = ground (arith, h.0) in
      rw k (linked-is_bot_user user_id users h.1 (rw skipped at e))
]

get_submission_user-bot :
    (token user_id : String) (users : List User) (u : User)
    → same user_id "" ≡ false
    → first (is_bot_user user_id) users ≡ some u
    → get_submission_user (some token) users (bot token) (some user_id) ≡ granted u
unfolding get_submission_user
get_submission_user-bot token user_id users u h e =
    let own : same token token ≡ true = (same_iff token token).1 refl in rw own (rw h (rw e refl))

module _ {J : Type 0} (py : Python J) (settings : Settings) (users : List User)
    (user_id : String) where
  -- A request that the backend, with the same token and users, grants to the user of that Discord id.
  abbrev pub IsGranted : ApiRequest J → Type 0
  IsGranted r =
      (u : User) × (get_submission_user settings.internal_token users r.authorization
          (some r.discord_user_id)
        ≡ granted u)
      × (matches u.discord_user_id user_id ≡ true)

  -- What a command does, by its method, its path, its parameters, the text of its failures and the ids
  -- that it may name. For a Discord user with no linked active account it sends nothing. Without a
  -- token it sends nothing, and reports a failure. Otherwise it sends one request, which the backend
  -- grants to the account, and reports its reply.
  abbrev pub CommandMeans :
      (ApiRequest J → HttpReply)
      → HttpMethod
      → String
      → Command
      → String
      → (String → Type 0)
      → List (ApiRequest J) × Option String
      → Type 0
  CommandMeans http m path c failure IsId effects =
      ((discord_affiliate_exists users user_id ≡ false)
        × (effects.0 ≡ [])
        × (effects.1 ≡ some "You are not linked to an affiliate account. Please contact support."))
      ⊎ ((discord_affiliate_exists users user_id ≡ true)
          × (((settings.internal_token ≡ none)
                × (effects.0 ≡ [])
                × (effects.1 ≡ some (followed_by failure "None")))
              ⊎ ((r : ApiRequest J) × (effects.0 ≡ r ∷ [])
                  × (r.http_method ≡ m)
                  × (r.url ≡ rstrip is_slash settings.api_base_url ++ codes path)
                  × PayloadMeans py c r.payload
                  × IsGranted r
                  × ReplyMeans py failure IsId (http r) effects.1)))

  effects_of :
      (ApiRequest J → HttpReply)
      → HttpMethod
      → String
      → Payload J
      → (Bool → ApiData J → Option String)
      → List (ApiRequest J) × Option String
  effects_of http m path payload text =
      let (sent, ok, d) = api_request py settings http m path user_id payload in
      if discord_affiliate_exists users user_id
      then (sent, text ok d)
      else ([], some (unlinked_text py))

  module _ (nonempty : same user_id "" ≡ false)
      (affiliates : All
        (λ u. (is_linked user_id u && not (is_role u.role affiliate)) ≡ false)
        users) where
    effects_of-CommandMeans :
        (http : ApiRequest J → HttpReply) (m : HttpMethod) (path : String) (c : Command)
        (failure : String) (IsId : String → Type 0) (text : Bool → ApiData J → Option String)
        → text false (error_only "BOT_INTERNAL_TOKEN not configured")
          ≡ some (followed_by failure "None")
        → ((reply : HttpReply)
            → ReplyMeans py failure IsId reply (text (received py reply).0 (received py reply).1))
        → CommandMeans http m path c failure IsId (effects_of http m path (payload_of py c) text)
    unfolding effects_of api_request
    effects_of-CommandMeans http m path c failure IsId text tokenless replies =
        elim (Bool-cases (discord_affiliate_exists users user_id)) [
          | inr e ↦ rw e (inl (refl, refl, refl))
          | inl e ↦ elim (Option-cases settings.internal_token) [
            | inl k ↦ rw e (rw k (inr (refl, inl (refl, refl, tokenless))))
            | inr (token, k) ↦
                let found : is_some (first (is_linked user_id) users) ≡ true =
                  unfold discord_affiliate_exists in e in
                let (u, at_backend, linked) = linked-is_bot_user user_id users affiliates found in
                let grant = get_submission_user-bot token user_id users u nonempty at_backend in
                rw e (
                  rw k (
                    inr (
                      refl,
                      inr (
                        _,
                        refl,
                        refl,
                        refl,
                        payload_of-PayloadMeans py c,
                        (u, grant, linked),
                        replies _,
                      ),
                    )))
          ]
        ]

    -- If the id of the Discord user is not empty and its active linked users are affiliates: for a
    -- user who is not linked, both commands send nothing and say so. Without a bot token they send
    -- nothing, and report a failure. Otherwise each sends one request, a POST to /submissions/ or a
    -- PUT to the metrics of the post, whose payload has each parameter under its own key; and the
    -- backend, with the same token and users, grants it to a user with that Discord id. The message
    -- reports a success exactly for a status from 200 to 299, and then names the post if it is an
    -- update; otherwise it reports a failure. Only a parsed reply can make it fail to send one.
    pub commands-CommandMeans :
        (http : ApiRequest J → HttpReply) (c : Command) (post_id : ℤ)
        → CommandMeans http post "/submissions/" c "❌ Submission failed: "
            (AnyId py)
            (submit_post_cmd py settings users http user_id c)
          × CommandMeans http put
              (metrics_path py post_id)
              c
              "❌ Update failed: "
              (IsIdOf py post_id)
              (update_post_cmd py settings users http user_id post_id c)
    unfolding submit_post_cmd update_post_cmd effects_of submit_text update_text detail_of
    commands-CommandMeans http c post_id = (
      effects_of-CommandMeans http post "/submissions/" c "❌ Submission failed: " (AnyId py)
          (submit_text py) refl (submit_text-ReplyMeans py),
      effects_of-CommandMeans http put (metrics_path py post_id) c "❌ Update failed: "
          (IsIdOf py post_id) (update_text py post_id) refl (update_text-ReplyMeans py post_id),
    )
