-- ===== src/Accounts/ClientUsers.antt =====
-- What `create_client_user` answers
-- (affiliate-reconciliation-backend/app/api/v1/endpoints/users.py and utils/logger.py).
use affiliate_platform.Prelude.{
  ◌≡◌, refl, ◌⊎◌, inl, inr, Bool, true, false, not, ◌&&◌, Option, none, some, [], ◌∷◌, ◌++◌, String,
  ℕ, is_some, Bool-cases, pos,
}
use affiliate_platform.Enums.{client, admin}
use affiliate_platform.Access.{is_role}
use affiliate_platform.Tables.{Database, User, Answer, refused, first, server_error, Refusal}
use affiliate_platform.Accounts.{
  is_client, made_user, has_email, is_same_user, NewUser, create_client_user,
}

-- The row that a request asks for.
abbrev pub asked : NewUser → String → String → ℕ → User
asked n name email client_id =
    made_user n
      (record {
        name = name;
        email = email;
        discord_user_id = none;
        role = client;
        client_id = some client_id;
      })
      (some (pos 50))

-- An administrator asks for a client that exists, and the email and the unique columns are free.
abbrev pub accepts : Database → NewUser → User → String → String → ℕ → Bool
accepts db n user name email client_id =
    is_role user.role admin
    && (is_some (first (is_client client_id) db.clients)
        && (not (is_some (first (has_email email) db.users))
            && not (is_some (first (is_same_user (asked n name email client_id)) db.users))))

-- What a request does, by whether it is accepted.
abbrev pub ClientUserMeans : Database → User → Bool → Database × Answer User → Type 0
ClientUserMeans db u accepted (db', answer) =
    ((accepted ≡ true)
      × (db' ≡ record db { users = db.users ++ (u ∷ []) })
      × (answer ≡ refused server_error))
    ⊎ ((accepted ≡ false) × (db' ≡ db) × ((reason : Refusal) × (answer ≡ refused reason)))

-- No request for a client user is answered with success. One that is accepted, from an administrator
-- for a client that exists with a free email and free unique columns, stores the user, and is then
-- answered with status 500, since the log of the event raises; any other one is refused and changes
-- nothing.
pub create_client_user-ClientUserMeans :
    (db : Database) (n : NewUser) (user : User) (request_id : Option String) (name email : String)
    (client_id : ℕ)
    → ClientUserMeans db
        (asked n name email client_id)
        (accepts db n user name email client_id)
        (create_client_user db n user request_id name email client_id)
unfolding create_client_user
create_client_user-ClientUserMeans db n user request_id name email client_id =
    let u = asked n name email client_id in
    elim (Bool-cases (is_role user.role admin)) [
      | inr e ↦ rw e (inr (refl, refl, (_, refl)))
      | inl e ↦ elim (Bool-cases (is_some (first (is_client client_id) db.clients))) [
        | inr f ↦ rw e (rw f (inr (refl, refl, (_, refl))))
        | inl f ↦ elim (Bool-cases (is_some (first (has_email email) db.users))) [
          | inl g ↦ rw e (rw f (rw g (inr (refl, refl, (_, refl)))))
          | inr g ↦ elim (Bool-cases (is_some (first (is_same_user u) db.users))) [
            | inl h ↦ rw e (rw f (rw g (rw h (inr (refl, refl, (_, refl))))))
            | inr h ↦ rw e (rw f (rw g (rw h (inl (refl, refl, refl)))))
          ]
        ]
      ]
    ]
