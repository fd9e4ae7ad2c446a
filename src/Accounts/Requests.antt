-- ===== src/Accounts/Requests.antt =====
-- Sequences of requests to the endpoints of clients, users and campaigns
-- (affiliate-reconciliation-backend/app/api/v1/endpoints: clients.py, users.py, campaigns.py).
use affiliate_platform.Tables.{Database, User}
use affiliate_platform.Prelude.{[], ◌∷◌, String, List, ℕ, Option}
use affiliate_platform.Accounts.{
  UserCreate, CampaignCreate, NameUpdate, NewUser, delete_client, create_user, update_client,
  create_client_user, create_campaign, create_client,
}

-- The requests that change the tables.
pub data Request : Type 0 where
  creates_client : ℕ → User → String → Request
  updates_client : User → ℕ → NameUpdate → Request
  deletes_client : User → ℕ → Request
  creates_user : NewUser → UserCreate → Request
  creates_client_user : NewUser → User → Option String → String → String → ℕ → Request
  creates_campaign : ℕ → User → CampaignCreate → Request

abbrev pub after_request : Database → Request → Database
after_request db (creates_client id user name) = (create_client db id user name).0
after_request db (updates_client user n name) = (update_client db user n name).0
after_request db (deletes_client user n) = (delete_client db user n).0
after_request db (creates_user n d) = (create_user db n d).0
after_request db (creates_client_user n user request_id name email client_id) =
    (create_client_user db n user request_id name email client_id).0
after_request db (creates_campaign id user d) = (create_campaign db id user d).0

abbrev pub after_requests : Database → List Request → Database
after_requests db [] = db
after_requests db (r ∷ requests) = after_requests (after_request db r) requests
