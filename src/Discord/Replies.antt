-- ===== src/Discord/Replies.antt =====
-- What the commands of the bot make of their parameters and of a reply
-- (affiliate-reconciliation-backend/app/services/discord_bot.py).
use affiliate_platform.Prelude.{
  ◌≤◌, ◌<◌, ◌≡◌, refl, ℤ, ◌⊎◌, inl, inr, String, true, false, ◌&&◌, Option, none, some, leb, ltb,
  is_some, same, arith, Bool-cases, Option-cases, followed_by,
}
use affiliate_platform.Discord.{
  Python, Payload, Evidence, note, parsed_evidence, Command, given_text, HttpReply, replied,
  network_error, body_of, received, parse_evidence, given_evidence, payload_of, message_or,
  post_id_of, detail_of, accepted_text, submit_text, update_text,
}

-- An optional text of the payload: the one that is given, unless it is empty.
abbrev pub TextMeans : Option String → Option String → Type 0
TextMeans none sent = sent ≡ none
TextMeans (some s) sent =
    ((same s "" ≡ true) × (sent ≡ none)) ⊎ ((same s "" ≡ false) × (sent ≡ some s))

given_text-TextMeans : (o : Option String) → TextMeans o (given_text o)
given_text-TextMeans none = refl
given_text-TextMeans (some s) = elim (Bool-cases (same s "")) [
  | inl e ↦ rw e (inl (refl, refl))
  | inr e ↦ rw e (inr (refl, refl))
]

module _ {J : Type 0} (py : Python J) where
  -- The evidence of the payload: nothing for an empty text; the note for a text that is not JSON; else
  -- the value, unless it counts as false.
  abbrev pub EvidenceMeans : Option String → Option (Evidence J) → Type 0
  EvidenceMeans none sent = sent ≡ none
  EvidenceMeans (some s) sent =
      ((same s "" ≡ true) × (sent ≡ none))
      ⊎ ((same s "" ≡ false)
          × (((py.loads s ≡ none) × (sent ≡ some (note s)))
              ⊎ ((j : J) × (py.loads s ≡ some j)
                  × (((py.is_true j ≡ true) × (sent ≡ some (parsed_evidence j)))
                      ⊎ ((py.is_true j ≡ false) × (sent ≡ none))))))

  evidence-EvidenceMeans :
      (o : Option String) → EvidenceMeans o (given_evidence py (parse_evidence py o))
  unfolding given_evidence parse_evidence
  evidence-EvidenceMeans none = refl
  evidence-EvidenceMeans (some s) = elim (Bool-cases (same s "")) [
    | inl e ↦ rw e (inl (refl, refl))
    | inr e ↦ elim (Option-cases (py.loads s)) [
      | inl k ↦ rw (e, k) (inr (refl, inl (refl, refl)))
      | inr (j, k) ↦ elim (Bool-cases (py.is_true j)) [
        | inl t ↦ rw (e, k, t) (inr (refl, inr (j, refl, inl (t, refl))))
        | inr t ↦ rw (e, k, t) (inr (refl, inr (j, refl, inr (t, refl))))
      ]
    ]
  ]

  -- The payload of a command: each parameter under its own key.
  pub record PayloadMeans (c : Command) (p : Payload J) : Type 0 where
    pub campaign_id : p.campaign_id ≡ c.campaign_id
    pub platform_id : p.platform_id ≡ c.platform_id
    pub post_url : p.post_url ≡ c.post_url
    pub claimed_views : p.claimed_views ≡ c.claimed_views
    pub claimed_clicks : p.claimed_clicks ≡ c.claimed_clicks
    pub claimed_conversions : p.claimed_conversions ≡ c.claimed_conversions
    pub submission_method : p.submission_method ≡ "DISCORD"
    pub title : TextMeans c.title p.title
    pub description : TextMeans c.description p.description
    pub evidence_data : EvidenceMeans c.evidence_json p.evidence_data

  pub payload_of-PayloadMeans : (c : Command) → PayloadMeans c (payload_of py c)
  unfolding payload_of
  payload_of-PayloadMeans c = record {
    campaign_id = refl;
    platform_id = refl;
    post_url = refl;
    claimed_views = refl;
    claimed_clicks = refl;
    claimed_conversions = refl;
    submission_method = refl;
    title = given_text-TextMeans c.title;
    description = given_text-TextMeans c.description;
    evidence_data = evidence-EvidenceMeans c.evidence_json;
  }

  -- The message of a command that was accepted, with the id that it names. Without a message an
  -- exception was raised, which takes a parsed reply.
  abbrev pub AcceptedMeans : (String → Type 0) → String → Option String → Type 0
  AcceptedMeans IsId text none = is_some (py.loads text) ≡ true
  AcceptedMeans IsId text (some shown) =
      (message : String) × (post_id : String) × IsId post_id
      × (shown
          ≡ followed_by "✅ "
              (followed_by message (followed_by " (post_id=" (followed_by post_id ")"))))

  -- The message by the reply: a status from 200 to 299 is a success, any other and an error of the
  -- network are a failure.
  abbrev pub ReplyMeans : String → (String → Type 0) → HttpReply → Option String → Type 0
  ReplyMeans failure IsId (network_error error) shown = shown ≡ some (followed_by failure "None")
  ReplyMeans failure IsId (replied status text) shown =
      ((200 ≤ status) × (status < 300) × AcceptedMeans IsId text shown)
      ⊎ (((status < 200) ⊎ (300 ≤ status))
          × ((detail : String) × (shown ≡ some (followed_by failure detail))))

  -- An accepted message, of which the parts are there or a reply was parsed.
  accepted-AcceptedMeans :
      (IsId : String → Type 0) (text : String) (message post_id : Option String)
      → ((is_some (py.loads text) ≡ true) ⊎ (is_some message ≡ true))
      → ((id : String) → post_id ≡ some id → IsId id)
      → ((is_some (py.loads text) ≡ true) ⊎ (is_some post_id ≡ true))
      → AcceptedMeans IsId text (accepted_text py message post_id)
  accepted-AcceptedMeans IsId text (some m) (some id) h k l = (m, id, k id refl, refl)
  accepted-AcceptedMeans IsId text none post_id (inl h) k l = h
  accepted-AcceptedMeans IsId text none post_id (inr h) k l = absurd (cc)
  accepted-AcceptedMeans IsId text (some m) none h k (inl l) = l
  accepted-AcceptedMeans IsId text (some m) none h k (inr l) = absurd (cc)

  message_or-parsed :
      (default text : String)
      → (is_some (py.loads text) ≡ true)
        ⊎ (is_some (message_or py default (body_of py text)) ≡ true)
  unfolding message_or body_of
  message_or-parsed default text = elim (Bool-cases (same text "")) [
    | inl e ↦ rw e (inr refl)
    | inr e ↦ elim (Option-cases (py.loads text)) [
      | inl k ↦ rw (e, k) (inr refl)
      | inr (j, k) ↦ rw k (inl refl)
    ]
  ]

  post_id_of-parsed :
      (text : String)
      → (is_some (py.loads text) ≡ true) ⊎ (is_some (post_id_of py (body_of py text)) ≡ true)
  unfolding post_id_of body_of
  post_id_of-parsed text = elim (Bool-cases (same text "")) [
    | inl e ↦ rw e (inr refl)
    | inr e ↦ elim (Option-cases (py.loads text)) [
      | inl k ↦ rw (e, k) (inr refl)
      | inr (j, k) ↦ rw k (inl refl)
    ]
  ]

  -- Any text is the id that a submission names.
  abbrev pub AnyId : String → Type 0
  AnyId id = Unit

  pub submit_text-ReplyMeans :
      (reply : HttpReply)
      → ReplyMeans "❌ Submission failed: " AnyId reply
          (submit_text py (received py reply).0 (received py reply).1)
  unfolding submit_text received detail_of
  submit_text-ReplyMeans (network_error error) = refl
  submit_text-ReplyMeans (replied status text) =
      elim (Bool-cases (leb 200 status && ltb status 300)) [
        | inl e ↦ rw e (
            inl (
              ground (arith, e),
              ground (arith, e),
              accepted-AcceptedMeans AnyId text _ _ (message_or-parsed "Submission accepted" text)
                  (λ id k. tt) (post_id_of-parsed text),
            ))
        | inr e ↦ rw e (inr (ground (arith, e), (_, refl)))
      ]

  -- An update names the id of its post.
  abbrev pub IsIdOf : ℤ → String → Type 0
  IsIdOf post_id id = id ≡ py.shown_int post_id

  pub update_text-ReplyMeans :
      (post_id : ℤ) (reply : HttpReply)
      → ReplyMeans "❌ Update failed: "
          (IsIdOf post_id)
          reply
          (update_text py post_id (received py reply).0 (received py reply).1)
  unfolding update_text received detail_of
  update_text-ReplyMeans post_id (network_error error) = refl
  update_text-ReplyMeans post_id (replied status text) =
      elim (Bool-cases (leb 200 status && ltb status 300)) [
        | inl e ↦ rw e (
            inl (
              ground (arith, e),
              ground (arith, e),
              accepted-AcceptedMeans (IsIdOf post_id) text _ _
                  (message_or-parsed "Update accepted" text) (λ id k. cc) (inr refl),
            ))
        | inr e ↦ rw e (inr (ground (arith, e), (_, refl)))
      ]
