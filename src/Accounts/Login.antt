-- ===== src/Accounts/Login.antt =====
-- What a user that was created may do
-- (affiliate-reconciliation-backend/app/api/v1/endpoints/users.py with
-- affiliate-reconciliation-backend/app/api/deps.py).
use affiliate_platform.Enums.{affiliate}
use affiliate_platform.Tables.{
  first-none, conflict, not_found, IsIn, refused, granted, Answer, first, Database, User,
}
use affiliate_platform.Prelude.{
  none, pos, Option-cases, ◌&&◌, inr, is_some, if◌then◌else◌, not, same_iff, inl, All-weaken, some,
  [], ◌∷◌, ◌++◌, true, arith, Bool, false, All, List, ℤ, Option, ◌≡◌, refl,
}
use affiliate_platform.Accounts.{
  keeps_reference, keeps_role, has_email, lacks_client, create_user, NewUser, UserCreate,
  insert_user, made_user, is_same_user,
}
use affiliate_platform.Access.{is_role, get_current_user, has_key}

first-append :
    {A : Type 0}
    → (p : A → Bool) (l : List A) (x : A) → All (λ y. p y ≡ false) l
    → p x ≡ true
    → first p (l ++ (x ∷ [])) ≡ some x
unfolding first
first-append p [] x h e = ground (arith, e)
first-append p (y ∷ l) x h e =
    let rest : first p (l ++ (x ∷ [])) ≡ some x = first-append p l x h.1 e in
    let here : p y ≡ false = h.0 in rw (here, rest)

-- What a creation answers: the user's API key is accepted, and the user has the role that was asked
-- for.
abbrev pub LogsIn : NewUser → UserCreate → Database × Answer User → Type 0
LogsIn n d (db, refused reason) = Unit
LogsIn n d (db, granted u) =
    (get_current_user db.users n.api_key ≡ granted u) × (u.role ≡ d.role) × IsIn u db.users

LogsIn-if :
    (n : NewUser) (d : UserCreate) (b : Bool) (r t : Database × Answer User)
    → (b ≡ true → LogsIn n d r)
    → (b ≡ false → LogsIn n d t)
    → LogsIn n d (if b then r else t)
LogsIn-if n d true r t h k = h refl
LogsIn-if n d false r t h k = k refl

no_duplicate :
    (u : User) (users : List User) (b : Bool)
    → (not (is_some (first (is_same_user u) users)) && b) ≡ true
    → All (λ v. is_same_user u v ≡ false) users
no_duplicate u users b e = elim (Option-cases (first (is_same_user u) users)) [
  | inl f ↦ first-none (is_same_user u) users f
  | inr (v, f) ↦ absurd (ground (arith, e, f))
]

-- A key of another user is refused as a duplicate.
has_key-is_same_user :
    (n : NewUser) (d : UserCreate) (t : Option ℤ) (v : User)
    → is_same_user (made_user n d t) v ≡ false
    → has_key n.api_key v ≡ false
has_key-is_same_user n d t v e = ground (arith, e)

own_key : (n : NewUser) (d : UserCreate) (t : Option ℤ) → has_key n.api_key (made_user n d t) ≡ true
own_key n d t = ground (arith, same_iff n.api_key n.api_key)

get_current_user-made_user :
    (n : NewUser) (d : UserCreate) (t : Option ℤ) (users : List User)
    → All (λ v. is_same_user (made_user n d t) v ≡ false) users
    → get_current_user (users ++ (made_user n d t ∷ [])) n.api_key ≡ granted (made_user n d t)
unfolding get_current_user
get_current_user-made_user n d t users h = rw (
    first-append (has_key n.api_key) users (made_user n d t)
      (All-weaken _ _ users (λ v e. has_key-is_same_user n d t v e) h) (own_key n d t))

IsIn-append : {A : Type 0} → (l : List A) (x : A) → IsIn x (l ++ (x ∷ []))
IsIn-append [] x = inl refl
IsIn-append (y ∷ l) x = inr (IsIn-append l x)

LogsIn-insert_user :
    (db : Database) (n : NewUser) (d : UserCreate) (t : Option ℤ)
    → LogsIn n d (insert_user db (made_user n d t))
LogsIn-insert_user db n d t =
    let u = made_user n d t in
    LogsIn-if n d
      (not (is_some (first (is_same_user u) db.users))
        && (keeps_role u && keeps_reference db u.client_id))
      _ _
      (λ e. (
        get_current_user-made_user n d t db.users (no_duplicate u db.users _ e),
        refl,
        IsIn-append db.users u,
      ))
      (λ e. tt)

-- Whoever creates a user gets an account that works: with the API key that the answer holds a
-- request is authenticated as that user, and the user has the role that the request asked for,
-- ADMIN included. No credentials are asked for.
pub create_user-LogsIn :
    (db : Database) (n : NewUser) (d : UserCreate) → LogsIn n d (create_user db n d)
unfolding create_user
create_user-LogsIn db n d =
    LogsIn-if n d (lacks_client db d.role d.client_id) (db, refused not_found) _ (λ e. tt)
      (λ e.
        LogsIn-if n d (is_some (first (has_email d.email) db.users)) (db, refused conflict) _
          (λ f. tt)
          (λ f.
            LogsIn-insert_user db n d (if is_role d.role affiliate then some (pos 50) else none)))
