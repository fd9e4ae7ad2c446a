-- ===== src/Access/Submission.antt =====
-- Who may submit (affiliate-reconciliation-backend/app/api/deps.py).
use affiliate_platform.Prelude.{
  String, ◌≡◌, refl, ap, ◌≢◌, ◌↔◌, inl, inr, true, false, Option, none, some, List, arith,
  Bool-cases, get_or_else, All, same_iff,
}
use affiliate_platform.Enums.{UserRole, affiliate, client, admin}
use affiliate_platform.Tables.{
  bad_request, unauthorized, not_found, Answer, granted, refused, or_refuse, User, first, IsIn,
  Found, first-Found,
}
use affiliate_platform.Access.{
  AuthHeader, bearer, bot, neither, matches, is_given, is_bot_user, is_role, has_key,
  get_submission_user,
}

matches_iff : (o : Option String) (s : String) → (matches o s ≡ true) ↔ (o ≡ some s)
matches_iff none s = (λ e. cc, λ e. cc)
matches_iff (some t) s = (λ e. ap some ((same_iff t s).0 e), λ e. (same_iff t s).1 (cc e))

affiliate_iff : (r : UserRole) → (is_role r affiliate ≡ true) ↔ (r ≡ affiliate)
affiliate_iff affiliate = (λ e. refl, λ e. refl)
affiliate_iff client = (λ e. cc, λ e. cc)
affiliate_iff admin = (λ e. cc, λ e. cc)

-- The user who is let in with a bot token: an active affiliate with the Discord identifier.
abbrev pub IsBotUser : Option String → User → Type 0
IsBotUser discord_id u =
    (u.role ≡ affiliate)
    × (u.is_active ≡ true)
    × (u.discord_user_id ≡ some (get_or_else discord_id ""))

is_bot_user_iff :
    (discord_id : Option String) (u : User)
    → (is_bot_user (get_or_else discord_id "") u ≡ true) ↔ IsBotUser discord_id u
is_bot_user_iff discord_id u =
    let id = get_or_else discord_id "" in
    (
      λ e. (
        (affiliate_iff u.role).0 (ground (arith, e)),
        ground (arith, e),
        (matches_iff u.discord_user_id id).0 (ground (arith, e)),
      ),
      λ b.
          ground
            (arith, (affiliate_iff u.role).1 b.0, b.1, (matches_iff u.discord_user_id id).1 b.2),
    )

-- What each answer says. With an API key the user is an active one with that key, and 401 says that
-- there is none. With a bot token the token is the configured one and the user is an active affiliate
-- with the Discord identifier of the request; 401 says that the token is another one, 400 that the
-- identifier is missing, and 404 that no row passes the filter. Without either the answer is 401.
abbrev pub SubmissionMeans :
    Option String → List User → AuthHeader → Option String → Answer User → Type 0
SubmissionMeans token users (bearer api_key) discord_id (granted u) =
    IsIn u users × (has_key api_key u ≡ true)
SubmissionMeans token users (bearer api_key) discord_id (refused reason) =
    (reason ≡ unauthorized) × All (λ u. has_key api_key u ≡ false) users
SubmissionMeans token users (bot t) discord_id (granted u) =
    (token ≡ some t) × (is_given discord_id ≡ true) × IsIn u users × IsBotUser discord_id u
SubmissionMeans token users (bot t) discord_id (refused unauthorized) = token ≢ some t
SubmissionMeans token users (bot t) discord_id (refused bad_request) =
    (token ≡ some t) × (is_given discord_id ≡ false)
SubmissionMeans token users (bot t) discord_id (refused not_found) =
    (token ≡ some t)
    × (is_given discord_id ≡ true)
    × All (λ u. is_bot_user (get_or_else discord_id "") u ≡ false) users
SubmissionMeans token users (bot t) discord_id (refused _) = ⊥
SubmissionMeans token users neither discord_id (granted u) = ⊥
SubmissionMeans token users neither discord_id (refused reason) = reason ≡ unauthorized

module _ (token : Option String) (users : List User) (discord_id : Option String) where
  bearer_step :
      (api_key : String) (o : Option User)
      → Found (has_key api_key) users o
      → SubmissionMeans token users (bearer api_key) discord_id (or_refuse o unauthorized)
  bearer_step api_key none found = (refl, found)
  bearer_step api_key (some u) found = (found.1, found.0)

  bot_step :
      (t : String) (o : Option User)
      → token ≡ some t
      → is_given discord_id ≡ true
      → Found (is_bot_user (get_or_else discord_id "")) users o
      → SubmissionMeans token users (bot t) discord_id (or_refuse o not_found)
  bot_step t none e given found = (e, given, found)
  bot_step t (some u) e given found = (e, given, found.1, (is_bot_user_iff discord_id u).0 found.0)

  -- With an API key a submission is made by an active user with that key, and refused with 401 if
  -- there is none. With a bot token it is made by an active affiliate with the Discord identifier
  -- of the request, and only if the token is the configured one; it is refused with 401 for
  -- another token, with 400 for a missing identifier, and with 404 if there is no such affiliate.
  -- Without either it is refused with 401.
  pub get_submission_user-SubmissionMeans :
      (header : AuthHeader)
      → SubmissionMeans token users header discord_id
          (get_submission_user token users header discord_id)
  unfolding get_submission_user
  get_submission_user-SubmissionMeans (bearer api_key) =
      bearer_step api_key (first (has_key api_key) users) (first-Found (has_key api_key) users)
  get_submission_user-SubmissionMeans (bot t) = elim (Bool-cases (matches token t)) [
    | inl e ↦ rw e (elim (Bool-cases (is_given discord_id)) [
      | inl g ↦
          let p = is_bot_user (get_or_else discord_id "") in
          rw g (bot_step t (first p users) ((matches_iff token t).0 e) g (first-Found p users))
      | inr g ↦ rw g ((matches_iff token t).0 e, g)
    ])
    | inr e ↦ rw e (λ f. cc ((matches_iff token t).1 f, e))
  ]
  get_submission_user-SubmissionMeans neither = refl
