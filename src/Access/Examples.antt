-- ===== src/Access/Examples.antt =====
-- The access checks on small tables.
use affiliate_platform.Prelude.{◌≡◌, refl, true, none, some, List, [], ◌∷◌, pos}
use affiliate_platform.Enums.{active, affiliate, client}
use affiliate_platform.Tables.{bad_request, forbidden, not_found, granted, refused, User, Campaign}
use affiliate_platform.Access.{
  ℕ, false, get_current_affiliate, check_admin_access, validate_platform_exists,
  get_campaign_if_authorized, get_pagination_params,
}
use affiliate_platform.Access.Roles.{AccessMeans, get_campaign_if_authorized-AccessMeans}

abbrev client_user : User
client_user = record {
  id = 1;
  name = "Ann";
  email = "ann@client.example";
  api_key = some "k1";
  discord_user_id = none;
  is_active = true;
  role = client;
  client_id = some 5;
  trust_score = none;
  total_submissions = 0;
}

abbrev affiliate_user : User
affiliate_user = record {
  id = 2;
  name = "Bob";
  email = "bob@mail.example";
  api_key = some "k2";
  discord_user_id = some "d2";
  is_active = true;
  role = affiliate;
  client_id = none;
  trust_score = some (pos 50);
  total_submissions = 0;
}

abbrev users : List User
users = client_user ∷ affiliate_user ∷ []

abbrev campaign_of : ℕ → ℕ → Campaign
campaign_of id client_id = record {
  id = id;
  name = "Spring";
  client_id = client_id;
  created_by = 9;
  status = active;
  platform_ids = 3 ∷ [];
}

abbrev campaigns : List Campaign
campaigns = campaign_of 10 5 ∷ campaign_of 11 6 ∷ []

own_campaign : get_campaign_if_authorized users campaigns "k1" 10 ≡ granted (campaign_of 10 5)
unfolding get_campaign_if_authorized
own_campaign = refl

too_long : get_pagination_params (pos 501) (pos 0) ≡ refused bad_request
unfolding get_pagination_params
too_long = refl

get_campaign_if_authorized-AccessMeans_example :
    AccessMeans users campaigns "k1" 11 (get_campaign_if_authorized users campaigns "k1" 11)
get_campaign_if_authorized-AccessMeans_example =
    get_campaign_if_authorized-AccessMeans users campaigns "k1" 11

no_affiliate : get_current_affiliate users "k1" ≡ refused forbidden
unfolding get_current_affiliate
no_affiliate = refl

inactive_platform :
    validate_platform_exists (record { id = 3; name = "tiktok"; is_active = false } ∷ []) 3
    ≡ refused not_found
unfolding validate_platform_exists
inactive_platform = refl

no_admin_key : check_admin_access none ≡ refused forbidden
unfolding check_admin_access
no_admin_key = refl
