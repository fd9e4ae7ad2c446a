-- ===== src/Accounts/Clients.antt =====
-- The endpoints of clients (affiliate-reconciliation-backend/app/api/v1/endpoints/clients.py).
use affiliate_platform.Prelude.{
  none, ◌||◌, ◌++◌, ltb, [], some, ◌&&◌, length, is_some, if◌then◌else◌, ◌==◌, ◌∷◌, same, not, Bool,
  String, List, Option, ℕ,
}
use affiliate_platform.Access.{matches_id, require_admin}
use affiliate_platform.Tables.{
  conflict, or_refuse, and_then, rows, limit, updated, not_found, server_error, first, offset,
  Database, Client, Campaign, User, Answer, granted, refused,
}

abbrev pub has_name : String → Client → Bool
has_name name c = same c.name name

abbrev pub is_client : ℕ → Client → Bool
is_client n c = c.id == n

-- The dependency `require_admin`, before the body of an endpoint.
abbrev pub guarded :
    {A : Type 0} → Database → Answer User → Database × Answer A → Database × Answer A
guarded db (refused reason) body = (db, refused reason)
guarded db (granted admin) body = body

abbrev pub as_admin : {A : Type 0} → Database → User → Database × Answer A → Database × Answer A
as_admin db user body = guarded db (require_admin user) body

abbrev pub new_client : Database → ℕ → String → Option Client → Database × Answer Client
new_client db id name (some c) = (db, refused conflict)
new_client db id name none =
    let c : Client = record { id = id; name = name } in
    (record db { clients = db.clients ++ (c ∷ []) }, granted c)

unfoldable pub create_client : Database → ℕ → User → String → Database × Answer Client
unfolding first require_admin
create_client db id user name =
    as_admin db user (new_client db id name (first (has_name name) db.clients))

-- The name in the body of an update: not set, null, or a text.
pub data NameUpdate : Type 0 where
  unset null : NameUpdate
  set : String → NameUpdate

abbrev pub named : String → Client → Client
named name c = record c { name = name }

-- The other clients with a name.
abbrev pub is_other_with_name : ℕ → String → Client → Bool
is_other_with_name n name c = same c.name name && not (c.id == n)

-- The column is not nullable and unique; a violation is answered with status 500.
abbrev pub renamed : Database → Client → NameUpdate → Database × Answer Client
renamed db c unset = (db, granted c)
renamed db c null = (db, refused server_error)
renamed db c (set name) =
    if is_some (first (is_other_with_name c.id name) db.clients)
    then (db, refused server_error)
    else (
      record db { clients = updated (is_client c.id) (named name) db.clients },
      granted (named name c),
    )

abbrev pub update_found : Database → NameUpdate → Option Client → Database × Answer Client
update_found db data_name none = (db, refused not_found)
update_found db data_name (some c) = renamed db c data_name

unfoldable pub update_client : Database → User → ℕ → NameUpdate → Database × Answer Client
unfolding first updated require_admin
update_client db user client_id data_name =
    as_admin db user (update_found db data_name (first (is_client client_id) db.clients))

abbrev pub is_user_of : ℕ → User → Bool
is_user_of n u = matches_id u.client_id n

abbrev pub is_campaign_of : ℕ → Campaign → Bool
is_campaign_of n c = c.client_id == n

abbrev pub is_not_client : ℕ → Client → Bool
is_not_client n c = not (c.id == n)

abbrev pub delete_found : Database → ℕ → Option Client → Database × Answer Client
delete_found db client_id none = (db, refused not_found)
delete_found db client_id (some c) =
    if ltb 0 (length (rows (is_user_of client_id) db.users))
      || ltb 0 (length (rows (is_campaign_of client_id) db.campaigns))
    then (db, refused conflict)
    else (record db { clients = rows (is_not_client client_id) db.clients }, granted c)

-- `delete_client`; the response has no content, and the deleted row stands for it.
unfoldable pub delete_client : Database → User → ℕ → Database × Answer Client
unfolding first rows require_admin
delete_client db user client_id =
    as_admin db user (delete_found db client_id (first (is_client client_id) db.clients))

-- A client with the numbers of its users and campaigns.
pub record ClientWithUsers : Type 0 where
  pub client : Client
  pub user_count : ℕ
  pub campaign_count : ℕ

abbrev pub counts_of : Database → List Client → List ClientWithUsers
counts_of db [] = []
counts_of db (c ∷ clients) =
    record {
      client = c;
      user_count = length (rows (is_user_of c.id) db.users);
      campaign_count = length (rows (is_campaign_of c.id) db.campaigns);
    }
    ∷ counts_of db clients

unfoldable pub list_clients : Database → User → ℕ → ℕ → Answer (List ClientWithUsers)
unfolding offset limit rows require_admin
list_clients db user skip_count page_limit =
    and_then (require_admin user)
      (λ admin. granted (counts_of db (limit page_limit (offset skip_count db.clients))))

-- A client with its users and campaigns.
pub record ClientWithRelations : Type 0 where
  pub client : Client
  pub users : List User
  pub campaigns : List Campaign

unfoldable pub get_client : Database → User → ℕ → Answer ClientWithRelations
unfolding first rows require_admin
get_client db user client_id = and_then (require_admin user) (λ admin.
    and_then (or_refuse (first (is_client client_id) db.clients) not_found) (λ c. granted (record {
      client = c;
      users = rows (is_user_of client_id) db.users;
      campaigns = rows (is_campaign_of client_id) db.campaigns;
    })))
