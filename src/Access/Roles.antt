-- ===== src/Access/Roles.antt =====
-- Who may see a campaign (affiliate-reconciliation-backend/app/api/deps.py).
use affiliate_platform.Prelude.{
  ℕ, String, ◌≡◌, refl, ap, ◌≢◌, ◌↔◌, ◌⊎◌, inl, inr, true, false, Option, none, some, List, [], ◌∷◌,
  ==_iff, Bool-cases, All,
}
use affiliate_platform.Enums.{UserRole, affiliate, client, admin}
use affiliate_platform.Tables.{
  unauthorized, forbidden, not_found, Answer, granted, refused, or_refuse, and_then, User, Campaign,
  first, IsIn, Found, first-Found,
}
use affiliate_platform.Access.{
  matches_id, has_key, has_id, get_current_user, require_role, check_campaign,
  get_campaign_if_authorized,
}

matches_id_iff : (o : Option ℕ) (n : ℕ) → (matches_id o n ≡ true) ↔ (o ≡ some n)
matches_id_iff none n = (λ e. cc, λ e. cc)
matches_id_iff (some m) n = (λ e. ap some ((==_iff m n).0 e), λ e. (==_iff m n).1 (cc e))

-- What each answer to a request for a campaign says. It is granted to an active user with the key
-- who is an admin, or a client user of the campaign's own client. 401 says that no active user has
-- the key; 404 that there is no such campaign; 403 that the user is an affiliate, or a client user of
-- another client.
abbrev pub AccessMeans : List User → List Campaign → String → ℕ → Answer Campaign → Type 0
AccessMeans users campaigns api_key campaign_id (granted c) =
    (u : User) × IsIn u users
    × (has_key api_key u ≡ true)
    × IsIn c campaigns
    × (c.id ≡ campaign_id)
    × ((u.role ≡ admin) ⊎ ((u.role ≡ client) × (u.client_id ≡ some c.client_id)))
AccessMeans users campaigns api_key campaign_id (refused unauthorized) =
    All (λ u. has_key api_key u ≡ false) users
AccessMeans users campaigns api_key campaign_id (refused not_found) =
    All (λ c. has_id campaign_id c ≡ false) campaigns
AccessMeans users campaigns api_key campaign_id (refused forbidden) =
    (u : User) × IsIn u users
    × (has_key api_key u ≡ true)
    × ((u.role ≡ affiliate)
        ⊎ ((u.role ≡ client)
            × ((c : Campaign) × IsIn c campaigns
                × (c.id ≡ campaign_id)
                × (u.client_id ≢ some c.client_id))))
AccessMeans users campaigns api_key campaign_id (refused _) = ⊥

module _ (users : List User) (campaigns : List Campaign) (api_key : String) (campaign_id : ℕ) where
  admin_step :
      (u : User) (o : Option Campaign)
      → IsIn u users
      → has_key api_key u ≡ true
      → u.role ≡ admin
      → Found (has_id campaign_id) campaigns o
      → AccessMeans users campaigns api_key campaign_id
          (and_then (or_refuse o not_found) (check_campaign u))
  unfolding check_campaign
  admin_step u none member key role found = found
  admin_step u (some c) member key role found =
      simp role (u, member, key, found.1, (==_iff c.id campaign_id).0 found.0, inl role)

  client_step :
      (u : User) (o : Option Campaign)
      → IsIn u users
      → has_key api_key u ≡ true
      → u.role ≡ client
      → Found (has_id campaign_id) campaigns o
      → AccessMeans users campaigns api_key campaign_id
          (and_then (or_refuse o not_found) (check_campaign u))
  unfolding check_campaign
  client_step u none member key role found = found
  client_step u (some c) member key role found =
      let id : c.id ≡ campaign_id = (==_iff c.id campaign_id).0 found.0 in
      elim (Bool-cases (matches_id u.client_id c.client_id)) [
        | inl e ↦
            simp (role, e)
              (
                u,
                member,
                key,
                found.1,
                id,
                inr (role, (matches_id_iff u.client_id c.client_id).0 e),
              )
        | inr e ↦
            simp (role, e)
              (
                u,
                member,
                key,
                inr (
                  role,
                  (c, found.1, id, λ f. cc ((matches_id_iff u.client_id c.client_id).1 f, e)),
                ),
              )
      ]

  role_step :
      (u : User) (r : UserRole)
      → u.role ≡ r
      → IsIn u users
      → has_key api_key u ≡ true
      → AccessMeans users campaigns api_key campaign_id (
          and_then (require_role (admin ∷ client ∷ []) u) (λ user.
            and_then
              (or_refuse (first (has_id campaign_id) campaigns) not_found)
              (check_campaign user)))
  unfolding require_role
  role_step u affiliate role member key = simp role (u, member, key, inl role)
  role_step u client role member key =
      simp role (client_step u _ member key role (first-Found (has_id campaign_id) campaigns))
  role_step u admin role member key =
      simp role (admin_step u _ member key role (first-Found (has_id campaign_id) campaigns))

  user_step :
      (o : Option User)
      → Found (has_key api_key) users o
      → AccessMeans users campaigns api_key campaign_id (
          and_then
            (and_then (or_refuse o unauthorized) (require_role (admin ∷ client ∷ [])))
            (λ user.
              and_then
                (or_refuse (first (has_id campaign_id) campaigns) not_found)
                (check_campaign user)))
  user_step none found = found
  user_step (some u) found = role_step u u.role refl found.1 found.0

  -- A campaign is granted only to an active user with the key who is an admin, or a client user of
  -- the campaign's own client, and it is the one asked for. A refusal with 401 says that no active
  -- user has the key, with 404 that there is no such campaign, and with 403 that the user is an
  -- affiliate or a client user of another client; there is no other refusal.
  pub get_campaign_if_authorized-AccessMeans :
      AccessMeans users campaigns api_key campaign_id
        (get_campaign_if_authorized users campaigns api_key campaign_id)
  unfolding get_campaign_if_authorized get_current_user
  get_campaign_if_authorized-AccessMeans =
      user_step (first (has_key api_key) users) (first-Found (has_key api_key) users)
