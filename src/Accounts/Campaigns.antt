-- ===== src/Accounts/Campaigns.antt =====
-- The endpoints of campaigns and the list of platforms
-- (affiliate-reconciliation-backend/app/api/v1/endpoints/campaigns.py and platforms.py).
use affiliate_platform.Enums.{CampaignStatus, active, paused, ended}
use affiliate_platform.Prelude.{
  false, none, some, ◌==◌, length, ◌&&◌, true, [], ◌||◌, ◌++◌, ◌∷◌, is_some, same, not,
  if◌then◌else◌, Bool, String, Option, List, ℕ,
}
use affiliate_platform.Access.{is_active_platform, has_member, require_admin}
use affiliate_platform.Accounts.Clients.{is_client, as_admin}
use affiliate_platform.Tables.{
  not_found, or_refuse, bad_request, and_then, conflict, server_error, limit, offset, first, rows,
  Database, Campaign, Platform, User, Answer, granted, refused,
}

-- The body of a request, without the dates, the cap and the rate; the status is left to the default
-- of its column.
pub record CampaignCreate : Type 0 where
  pub name : String
  pub client_id : ℕ
  pub platform_ids : List ℕ

abbrev pub is_named : String → Campaign → Bool
is_named name c = same c.name name

-- `Platform.id.in_(platform_ids)` and active.
abbrev pub is_wanted : List ℕ → Platform → Bool
is_wanted ids p = has_member p.id ids && p.is_active

abbrev pub ids_of : List Platform → List ℕ
ids_of [] = []
ids_of (p ∷ platforms) = p.id ∷ ids_of platforms

abbrev pub made_campaign : ℕ → User → CampaignCreate → List Platform → Campaign
made_campaign id user d platforms = record {
  id = id;
  name = d.name;
  client_id = d.client_id;
  created_by = user.id;
  status = active;
  platform_ids = ids_of platforms;
}

-- The insertion; a client that does not exist is answered with status 500 by a database that enforces
-- foreign keys, and stored by one that does not.
abbrev pub insert_campaign : Database → Campaign → Database × Answer Campaign
insert_campaign db c =
    if is_some (first (is_client c.client_id) db.clients) || not db.foreign_keys
    then (record db { campaigns = db.campaigns ++ (c ∷ []) }, granted c)
    else (db, refused server_error)

unfoldable pub create_campaign : Database → ℕ → User → CampaignCreate → Database × Answer Campaign
unfolding first rows require_admin
create_campaign db id user d =
    let found = rows (is_wanted d.platform_ids) db.platforms in
    as_admin db user (
      if is_some (first (is_named d.name) db.campaigns)
      then (db, refused conflict)
      else if not (length found == length d.platform_ids)
      then (db, refused bad_request)
      else insert_campaign db (made_campaign id user d found))

abbrev pub same_status : CampaignStatus → CampaignStatus → Bool
same_status active active = true
same_status paused paused = true
same_status ended ended = true
same_status _ _ = false

abbrev pub has_status : Option CampaignStatus → Campaign → Bool
has_status none c = true
has_status (some status) c = same_status c.status status

-- `if client_id`: 0 filters nothing.
abbrev pub is_listed : Option CampaignStatus → Option ℕ → Campaign → Bool
is_listed status none c = has_status status c
is_listed status (some n) c = has_status status c && (n == 0 || c.client_id == n)

unfoldable pub list_campaigns :
    Database → User → Option CampaignStatus → Option ℕ → ℕ → ℕ → Answer (List Campaign)
unfolding rows offset limit require_admin
list_campaigns db user status client_id page_limit skip_count =
    and_then (require_admin user) (λ admin.
      granted
        (limit page_limit (offset skip_count (rows (is_listed status client_id) db.campaigns))))

abbrev pub is_shown : Bool → Platform → Bool
is_shown active_only p = not active_only || p.is_active

unfoldable pub list_platforms : Database → Bool → List Platform
unfolding rows
list_platforms db active_only = rows (is_shown active_only) db.platforms

-- The data of the answer to a manual fetch.
pub record FetchQueued : Type 0 where
  pub platform_id : ℕ
  pub platform_name : String
  pub post_url : String

-- `fetch_platform_data`: it answers, and puts nothing into a queue.
unfoldable pub fetch_platform_data : Database → ℕ → String → Answer FetchQueued
unfolding first
fetch_platform_data db platform_id post_url =
    and_then (or_refuse (first (is_active_platform platform_id) db.platforms) not_found) (λ p.
      granted (record { platform_id = platform_id; platform_name = p.name; post_url = post_url }))
