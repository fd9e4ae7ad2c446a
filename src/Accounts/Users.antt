-- ===== src/Accounts/Users.antt =====
-- The endpoints of users (affiliate-reconciliation-backend/app/api/v1/endpoints/users.py).
use affiliate_platform.Access.{is_role, require_admin, matches}
use affiliate_platform.Enums.{client, affiliate, UserRole}
use affiliate_platform.Prelude.{
  Dict, ◌==◌, pos, List, none, [], ◌∷◌, ◌++◌, ◌&&◌, ◌||◌, some, not, false, is_some, ℤ, same, true,
  if◌then◌else◌, Bool, String, Option, ℕ,
}
use affiliate_platform.Accounts.Clients.{is_client, as_admin}
use mathlib.Core.Option
use affiliate_platform.Logging.{LogValue, text, number, flag, LogCall, log_business_event}
use affiliate_platform.Tables.{
  server_error, and_then, conflict, limit, not_found, offset, first, rows, Database, User, Answer,
  granted, refused,
}

-- The body of a request; for `create_client_user` the role is CLIENT.
pub record UserCreate : Type 0 where
  pub name : String
  pub email : String
  pub discord_user_id : Option String
  pub role : UserRole
  pub client_id : Option ℕ

-- What a new row gets besides.
pub record NewUser : Type 0 where
  pub id : ℕ
  pub api_key : String

abbrev pub made_user : NewUser → UserCreate → Option ℤ → User
made_user n d trust_score = record {
  id = n.id;
  name = d.name;
  email = d.email;
  api_key = some n.api_key;
  discord_user_id = d.discord_user_id;
  is_active = true;
  role = d.role;
  client_id = d.client_id;
  trust_score = trust_score;
  total_submissions = 0;
}

abbrev pub same_given : Option String → Option String → Bool
same_given none o = false
same_given (some s) o = matches o s

-- The unique columns.
abbrev pub is_same_user : User → User → Bool
is_same_user u v =
    same v.name u.name
    || (same v.email u.email
        || (same_given u.discord_user_id v.discord_user_id || same_given u.api_key v.api_key))

-- The checks of a role with a client, and the reference to the client.
abbrev pub keeps_role : User → Bool
keeps_role u = if is_role u.role client then is_some u.client_id else not (is_some u.client_id)

abbrev pub refers : Database → Option ℕ → Bool
refers db none = true
refers db (some n) = is_some (first (is_client n) db.clients)

-- The foreign key, where the database enforces it.
abbrev pub keeps_reference : Database → Option ℕ → Bool
keeps_reference db o = refers db o || not db.foreign_keys

-- The insertion; a violated constraint is an IntegrityError, which is answered with status 409.
abbrev pub insert_user : Database → User → Database × Answer User
insert_user db u =
    if not (is_some (first (is_same_user u) db.users))
      && (keeps_role u && keeps_reference db u.client_id)
    then (record db { users = db.users ++ (u ∷ []) }, granted u)
    else (db, refused conflict)

abbrev pub has_email : String → User → Bool
has_email email u = same u.email email

abbrev pub unless_email : Database → String → Database × Answer User → Database × Answer User
unless_email db email body =
    if is_some (first (has_email email) db.users) then (db, refused conflict) else body

-- `user_data.client_id` is tested for its truth: 0 counts as none.
abbrev pub lacks_client : Database → UserRole → Option ℕ → Bool
lacks_client db role none = false
lacks_client db role (some n) =
    is_role role client && (not (n == 0) && not (is_some (first (is_client n) db.clients)))

-- `create_user`, which needs no authentication.
unfoldable pub create_user : Database → NewUser → UserCreate → Database × Answer User
unfolding first
create_user db n d =
    if lacks_client db d.role d.client_id
    then (db, refused not_found)
    else unless_email db d.email
        (insert_user db (made_user n d (if is_role d.role affiliate then some (pos 50) else none)))

abbrev pub for_client : Database → UserCreate → Database × Answer User → Database × Answer User
for_client db d body = if refers db d.client_id then body else (db, refused not_found)

-- What `create_client_user` logs of the new user.
abbrev pub client_user_details : User → User → ℕ → Dict (Option LogValue)
client_user_details admin u client_id =
    ("user_id", some (number u.id))
    ∷ ("user_name", some (text u.name))
    ∷ ("user_email", some (text u.email))
    ∷ ("client_id", some (number client_id))
    ∷ ("created_by_admin_id", some (number admin.id))
    ∷ ("api_key_generated", some (flag true))
    ∷ []

-- The log of the event after the commit: an exception is answered with status 500.
abbrev pub when_logged : Option (LogCall LogValue) → User → Answer User
when_logged none u = refused server_error
when_logged (some call) u = granted u

abbrev pub logged_client_user :
    User → Option String → ℕ → Database × Answer User → Database × Answer User
logged_client_user admin request_id client_id (db, refused reason) = (db, refused reason)
logged_client_user admin request_id client_id (db, granted u) = (
  db,
  when_logged
      (log_business_event "client_user_created" (text "client_user_created")
        (some (number admin.id)) (Option.map text request_id)
        (client_user_details admin u client_id))
      u,
)

-- `create_client_user`: the trust score is left to the default of its column.
unfoldable pub create_client_user :
    Database → NewUser → User → Option String → String → String → ℕ → Database × Answer User
unfolding first require_admin log_business_event
create_client_user db n user request_id name email client_id =
    let d : UserCreate = record {
      name = name;
      email = email;
      discord_user_id = none;
      role = client;
      client_id = some client_id;
    } in
    as_admin db user (
      for_client db d (
        unless_email db email (
          logged_client_user user request_id client_id
            (insert_user db (made_user n d (some (pos 50)))))))

abbrev pub has_role : Option UserRole → User → Bool
has_role none u = true
has_role (some role) u = is_role u.role role

unfoldable pub list_users : Database → User → Option UserRole → ℕ → ℕ → Answer (List User)
unfolding rows offset limit require_admin
list_users db user role skip_count page_limit =
    and_then (require_admin user)
      (λ admin. granted (limit page_limit (offset skip_count (rows (has_role role) db.users))))
