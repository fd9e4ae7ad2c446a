-- ===== src/Access.antt =====
-- The access checks of affiliate-reconciliation-backend/app/api/deps.py.
pub mod Roles
pub mod Submission
mod Examples
use affiliate_platform.Prelude.{
  ℕ, String, Bool, true, false, not, ◌&&◌, ◌||◌, Option, none, some, List, [], ◌∷◌, ◌==◌,
  if◌then◌else◌, get_or_else, same, ℤ, pos, ltb_ℤ,
}
use affiliate_platform.Tables.{
  bad_request, unauthorized, forbidden, not_found, Answer, granted, refused, or_refuse, and_then,
  User, Campaign, Platform, first,
}
use affiliate_platform.Enums.{CampaignStatus, active, UserRole, affiliate, client, admin}

-- `role == UserRole.X`.
abbrev pub is_role : UserRole → UserRole → Bool
is_role affiliate affiliate = true
is_role client client = true
is_role admin admin = true
is_role _ _ = false

-- `role in allowed_roles`.
abbrev pub is_among : UserRole → List UserRole → Bool
is_among role [] = false
is_among role (r ∷ allowed) = is_role role r || is_among role allowed

-- `column == value`, for a column that may be NULL.
abbrev pub matches : Option String → String → Bool
matches none value = false
matches (some s) value = same s value

abbrev pub matches_id : Option ℕ → ℕ → Bool
matches_id none value = false
matches_id (some n) value = n == value

abbrev pub has_key : String → User → Bool
has_key api_key u = matches u.api_key api_key && u.is_active

unfoldable pub get_current_user : List User → String → Answer User
unfolding first
get_current_user users api_key = or_refuse (first (has_key api_key) users) unauthorized

-- `require_role`; `get_current_affiliate`, `require_admin` and `get_current_client_user` are the same
-- for one role.
unfoldable pub require_role : List UserRole → User → Answer User
require_role allowed_roles user =
    if is_among user.role allowed_roles then granted user else refused forbidden

unfoldable pub require_admin : User → Answer User
require_admin user = if is_role user.role admin then granted user else refused forbidden

unfoldable pub get_current_client_user : User → Answer User
get_current_client_user user = if is_role user.role client then granted user else refused forbidden

unfoldable pub require_client_access : ℕ → User → Answer User
require_client_access client_id user =
    if is_role user.role admin
    then granted user
    else if is_role user.role client
    then (if matches_id user.client_id client_id then granted user else refused forbidden)
    else refused forbidden

-- The check of `get_campaign_if_authorized` on the campaign that was found.
unfoldable pub check_campaign : User → Campaign → Answer Campaign
check_campaign user campaign =
    if is_role user.role client && not (matches_id user.client_id campaign.client_id)
    then refused forbidden
    else granted campaign

abbrev pub has_id : ℕ → Campaign → Bool
has_id campaign_id c = c.id == campaign_id

-- `get_campaign_if_authorized`, with the dependencies that it names.
unfoldable pub get_campaign_if_authorized : List User → List Campaign → String → ℕ → Answer Campaign
unfolding get_current_user require_role check_campaign
get_campaign_if_authorized users campaigns api_key campaign_id =
    and_then (and_then (get_current_user users api_key) (require_role (admin ∷ client ∷ [])))
      (λ user.
        and_then (or_refuse (first (has_id campaign_id) campaigns) not_found) (check_campaign user))

-- The Authorization header, by its prefix.
pub data AuthHeader : Type 0 where
  bearer bot : String → AuthHeader
  neither : AuthHeader

-- `not x_discord_user_id`.
abbrev pub is_given : Option String → Bool
is_given none = false
is_given (some s) = not (same s "")

abbrev pub is_bot_user : String → User → Bool
is_bot_user discord_id u =
    matches u.discord_user_id discord_id && is_role u.role affiliate && u.is_active

-- `get_submission_user`, with BOT_INTERNAL_TOKEN as its first argument.
unfoldable pub get_submission_user :
    Option String → List User → AuthHeader → Option String → Answer User
unfolding first
get_submission_user token users (bearer api_key) discord_id =
    or_refuse (first (has_key api_key) users) unauthorized
get_submission_user token users (bot bot_token) discord_id =
    if not (matches token bot_token)
    then refused unauthorized
    else if not (is_given discord_id)
    then refused bad_request
    else or_refuse (first (is_bot_user (get_or_else discord_id "")) users) not_found
get_submission_user token users neither discord_id = refused unauthorized

-- `get_pagination_params`.
unfoldable pub get_pagination_params : ℤ → ℤ → Answer (ℤ × ℤ)
get_pagination_params limit offset =
    if ltb_ℤ limit (pos 1) || ltb_ℤ (pos 500) limit
    then refused bad_request
    else if ltb_ℤ offset (pos 0)
    then refused bad_request
    else granted (limit, offset)

-- `get_current_affiliate`.
unfoldable pub get_current_affiliate : List User → String → Answer User
unfolding get_current_user
get_current_affiliate users api_key =
    and_then (get_current_user users api_key)
      (λ user. if is_role user.role affiliate then granted user else refused forbidden)

abbrev pub is_active_platform : ℕ → Platform → Bool
is_active_platform platform_id p = p.id == platform_id && p.is_active

-- `validate_platform_exists`.
unfoldable pub validate_platform_exists : List Platform → ℕ → Answer Platform
unfolding first
validate_platform_exists platforms platform_id =
    or_refuse (first (is_active_platform platform_id) platforms) not_found

-- `check_admin_access`.
unfoldable pub check_admin_access : Option String → Answer Bool
check_admin_access x_admin_key =
    if matches x_admin_key "admin_demo_key_123" then granted true else refused forbidden

-- `Campaign.status == "active"`.
abbrev pub is_active_status : CampaignStatus → Bool
is_active_status active = true
is_active_status _ = false

abbrev pub is_active_campaign : ℕ → Campaign → Bool
is_active_campaign campaign_id c = c.id == campaign_id && is_active_status c.status

-- `validate_campaign_exists`.
unfoldable pub validate_campaign_exists : List Campaign → ℕ → Answer Campaign
unfolding first
validate_campaign_exists campaigns campaign_id =
    or_refuse (first (is_active_campaign campaign_id) campaigns) not_found

-- `platform in campaign.platforms`.
abbrev pub has_member : ℕ → List ℕ → Bool
has_member n [] = false
has_member n (m ∷ l) = m == n || has_member n l

-- `validate_campaign_platform_relationship`; it returns None.
unfoldable pub validate_campaign_platform_relationship : Campaign → Platform → Answer Bool
validate_campaign_platform_relationship campaign platform =
    if has_member platform.id campaign.platform_ids then granted true else refused bad_request
