-- ===== src/Accounts/Examples.antt =====
-- Tests and examples on clients, users and campaigns.
use affiliate_platform.Accounts.ClientUsers.{
  asked, accepts, ClientUserMeans, create_client_user-ClientUserMeans,
}
use affiliate_platform.Tables.{server_error, conflict, granted, User, Database, refused}
use affiliate_platform.Access.{get_current_user}
use affiliate_platform.Accounts.Login.{create_user-LogsIn, LogsIn}
use affiliate_platform.Prelude.{[], ◌∷◌, true, false, none, ◌≡◌, refl}
use affiliate_platform.Enums.{active, admin}
use affiliate_platform.Accounts.{
  create_client_user, made_user, delete_client, create_user, NewUser, UserCreate, create_campaign,
  CampaignCreate,
}

abbrev root : User
root = record {
  id = 1;
  name = "root";
  email = "root@example.com";
  api_key = none;
  discord_user_id = none;
  is_active = true;
  role = admin;
  client_id = none;
  trust_score = none;
  total_submissions = 0;
}

abbrev start : Database
start = record {
  users = root ∷ [];
  clients = record { id = 3; name = "acme" } ∷ [];
  campaigns =
      record {
        id = 1;
        name = "spring";
        client_id = 3;
        created_by = 1;
        status = active;
        platform_ids = [];
      }
      ∷ [];
  platforms = [];
  posts = [];
  reports = [];
  logged = [];
  foreign_keys = true;
}

-- An account with the role ADMIN, asked for by nobody in particular.
abbrev intruder : UserCreate
intruder = record {
  name = "eve";
  email = "eve@example.com";
  discord_user_id = none;
  role = admin;
  client_id = none;
}

abbrev fresh : NewUser
fresh = record { id = 2; api_key = "k2" }

intruder_is_admin :
    (get_current_user (create_user start fresh intruder).0.users "k2")
    ≡ granted (made_user fresh intruder none)
unfolding create_user get_current_user
intruder_is_admin = refl

create_user-LogsIn_example : LogsIn fresh intruder (create_user start fresh intruder)
create_user-LogsIn_example = create_user-LogsIn start fresh intruder

-- The client cannot be deleted while it has a campaign.
client_kept : (delete_client start root 3).1 ≡ refused conflict
unfolding delete_client
client_kept = refl

-- A campaign for a client that does not exist is refused by a database that enforces foreign keys, and
-- stored by one that does not.
abbrev for_nobody : CampaignCreate
for_nobody = record { name = "autumn"; client_id = 9; platform_ids = [] }

refused_by_key : (create_campaign start 2 root for_nobody).1 ≡ refused server_error
unfolding create_campaign
refused_by_key = refl

stored_without_key :
    (create_campaign
      (record start { campaigns = []; foreign_keys = false })
      2
      root
      for_nobody).0.campaigns
    ≡ record {
      id = 2;
      name = "autumn";
      client_id = 9;
      created_by = 1;
      status = active;
      platform_ids = [];
    }
      ∷ []
unfolding create_campaign
stored_without_key = refl

-- The account of a client's user is stored, and the answer is status 500.
create_client_user_fails :
    (create_client_user start fresh root none "carol" "carol@example.com" 3).1
    ≡ refused server_error
unfolding create_client_user
create_client_user_fails = refl

create_client_user-ClientUserMeans_example :
    ClientUserMeans start
      (asked fresh "carol" "carol@example.com" 3)
      (accepts start fresh root "carol" "carol@example.com" 3)
      (create_client_user start fresh root none "carol" "carol@example.com" 3)
create_client_user-ClientUserMeans_example =
    create_client_user-ClientUserMeans start fresh root none "carol" "carol@example.com" 3
