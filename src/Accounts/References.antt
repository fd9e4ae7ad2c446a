-- ===== src/Accounts/References.antt =====
-- What holds of the references between clients, users and campaigns after every request
-- (affiliate-reconciliation-backend/app/api/v1/endpoints: clients.py, users.py, campaigns.py).
use affiliate_platform.Access.{matches_id}
use affiliate_platform.Accounts.{
  is_campaign_of, is_user_of, delete_found, null, unset, is_other_with_name, set, keeps_role,
  is_same_user, insert_campaign, keeps_reference, refers, insert_user, new_client, update_found,
  named, is_not_client, is_client, guarded, NameUpdate,
}
use affiliate_platform.Prelude.{
  All-both, ◌&&◌, All-append, ◌∙◌, sym, not, inr, inl, length, Bool-cases, ltb, is_some, All-weaken,
  none, some, arith, if◌then◌else◌, ◌||◌, ◌==◌, [], ◌++◌, ◌∷◌, true, false, String, Option, Bool,
  List, All, ℕ, ◌≡◌, refl,
}
use affiliate_platform.Tables.{
  conflict, server_error, Campaign, rows, updated, first, Database, Client, User, Answer, granted,
  refused,
}

abbrev pub has_client : ℕ → List Client → Bool
has_client n [] = false
has_client n (c ∷ clients) = c.id == n || has_client n clients

abbrev pub has_client_of : Option ℕ → List Client → Bool
has_client_of none clients = true
has_client_of (some n) clients = has_client n clients

-- Every user's and every campaign's client exists, in a database that enforces foreign keys.
abbrev pub IsLinked : Database → Type 0
IsLinked db =
    All (λ u. has_client_of u.client_id db.clients ≡ true) db.users
    × All (λ c. has_client c.client_id db.clients ≡ true) db.campaigns
    × (db.foreign_keys ≡ true)

pub IsLinked-if :
    {A : Type 0}
    → (b : Bool) (r t : Database × Answer A) → (b ≡ true → IsLinked r.0)
    → (b ≡ false → IsLinked t.0)
    → IsLinked (if b then r else t).0
IsLinked-if true r t h k = h refl
IsLinked-if false r t h k = k refl

pub IsLinked-guarded :
    {A : Type 0}
    → (db : Database) (a : Answer User) (body : Database × Answer A) → IsLinked db
    → IsLinked body.0
    → IsLinked (guarded db a body).0
IsLinked-guarded db (refused reason) body h k = h
IsLinked-guarded db (granted u) body h k = k

kept_option :
    (o : Option ℕ) (clients old : List Client)
    → ((n : ℕ) → has_client n old ≡ true → has_client n clients ≡ true)
    → has_client_of o old ≡ true
    → has_client_of o clients ≡ true
kept_option none clients old f k = refl
kept_option (some n) clients old f k = f n k

-- A table of clients in which every client of another one is found.
pub IsLinked-clients :
    (db : Database) (clients : List Client)
    → ((n : ℕ) → has_client n db.clients ≡ true → has_client n clients ≡ true)
    → IsLinked db
    → IsLinked (record db { clients = clients })
IsLinked-clients db clients f h = (
  All-weaken _ _ db.users (λ u k. kept_option u.client_id clients db.clients f k) h.0,
  All-weaken _ _ db.campaigns (λ c k. f c.client_id k) h.1,
  h.2,
)

pub has_client-append :
    (n : ℕ) (l m : List Client) → has_client n (l ++ m) ≡ (has_client n l || has_client n m)
has_client-append n [] m = refl
has_client-append n (c ∷ l) m = ground (arith, has_client-append n l m)

pub has_client-updated :
    (n k : ℕ) (name : String) (l : List Client)
    → has_client n (updated (is_client k) (named name) l) ≡ has_client n l
unfolding updated
has_client-updated n k name [] = refl
has_client-updated n k name (c ∷ l) = elim (Bool-cases (is_client k c)) [
  | inl e ↦ rw (e, has_client-updated n k name l)
  | inr e ↦ rw (e, has_client-updated n k name l)
]

-- A client that is not the deleted one stays.
pub has_client-deleted :
    (n k : ℕ) (l : List Client)
    → (n == k) ≡ false
    → has_client n (rows (is_not_client k) l) ≡ has_client n l
unfolding rows
has_client-deleted n k [] e = refl
has_client-deleted n k (c ∷ l) e = elim (Bool-cases (c.id == k)) [
  | inl f ↦
      let other : (c.id == n) ≡ false = ground (arith, e, f) in
      rw (f, other, has_client-deleted n k l e)
  | inr f ↦ rw (f, has_client-deleted n k l e)
]

pub has_client-first : (n : ℕ) (l : List Client) → is_some (first (is_client n) l) ≡ has_client n l
unfolding first
has_client-first n [] = refl
has_client-first n (c ∷ l) = ground (arith, has_client-first n l)

rows-some :
    {A : Type 0}
    → (p : A → Bool) (x : A) (l : List A) → p x ≡ true
    → ltb 0 (length (rows p (x ∷ l))) ≡ false
    → ⊥
unfolding rows
rows-some p x l f e = ground (arith, f, e)

-- Nothing was selected.
pub rows-none :
    {A : Type 0}
    → (p : A → Bool) (l : List A) → ltb 0 (length (rows p l)) ≡ false
    → All (λ x. p x ≡ false) l
unfolding rows
rows-none p [] e = tt
rows-none p (x ∷ l) e = elim (Bool-cases (p x)) [
  | inl f ↦ absurd (rows-some p x l f e)
  | inr f ↦ (f, rows-none p l (rw f at e))
]

both_true : (a b : Bool) → (a && b) ≡ true → (a ≡ true) × (b ≡ true)
both_true true b e = (refl, e)
both_true false b e = absurd (cc)

enforced : (a b : Bool) → b ≡ true → (a || not b) ≡ true → a ≡ true
enforced true b e h = refl
enforced false b e h = absurd (ground (arith, e, h))

refers-has_client :
    (db : Database) (o : Option ℕ) → refers db o ≡ true → has_client_of o db.clients ≡ true
refers-has_client db none e = refl
refers-has_client db (some n) e = sym (has_client-first n db.clients) ∙ e

-- The ends of the endpoints.
pub IsLinked-new_client :
    (db : Database) (id : ℕ) (name : String) (o : Option Client)
    → IsLinked db
    → IsLinked (new_client db id name o).0
IsLinked-new_client db id name (some c) h = h
IsLinked-new_client db id name none h =
    let c : Client = record { id = id; name = name } in
    IsLinked-clients db (db.clients ++ (c ∷ []))
      (λ n e. ground (arith, has_client-append n db.clients (c ∷ []), e)) h

pub IsLinked-update_found :
    (db : Database) (name : NameUpdate) (o : Option Client)
    → IsLinked db
    → IsLinked (update_found db name o).0
IsLinked-update_found db name none h = h
IsLinked-update_found db unset (some c) h = h
IsLinked-update_found db null (some c) h = h
IsLinked-update_found db (set name) (some c) h =
    IsLinked-if (is_some (first (is_other_with_name c.id name) db.clients))
      (db, refused server_error) _ (λ e. h)
      (λ e.
        IsLinked-clients db (updated (is_client c.id) (named name) db.clients)
          (λ n k. rw (has_client-updated n c.id name db.clients) k) h)

pub IsLinked-insert_user : (db : Database) (u : User) → IsLinked db → IsLinked (insert_user db u).0
IsLinked-insert_user db u h =
    IsLinked-if
      (not (is_some (first (is_same_user u) db.users))
        && (keeps_role u && keeps_reference db u.client_id))
      _ (db, refused conflict)
      (λ e. (
        All-append _ db.users (u ∷ []) h.0 (
          refers-has_client db u.client_id
              (enforced _ db.foreign_keys h.2 (both_true _ _ (both_true _ _ e).1).1),
          tt,
        ),
        h.1,
        h.2,
      ))
      (λ e. h)

pub IsLinked-insert_campaign :
    (db : Database) (c : Campaign) → IsLinked db → IsLinked (insert_campaign db c).0
IsLinked-insert_campaign db c h =
    IsLinked-if (is_some (first (is_client c.client_id) db.clients) || not db.foreign_keys) _
      (db, refused server_error)
      (λ e. (
        h.0,
        All-append _ db.campaigns (c ∷ []) h.1
            (sym (has_client-first c.client_id db.clients) ∙ enforced _ db.foreign_keys h.2 e, tt),
        h.2,
      ))
      (λ e. h)

neither : (a b : Bool) → (a || b) ≡ false → (a ≡ false) × (b ≡ false)
neither true b e = absurd (cc)
neither false b e = (refl, e)

kept_user :
    (o : Option ℕ) (n : ℕ) (clients : List Client)
    → has_client_of o clients ≡ true
    → matches_id o n ≡ false
    → has_client_of o (rows (is_not_client n) clients) ≡ true
kept_user none n clients h e = refl
kept_user (some m) n clients h e = has_client-deleted m n clients e ∙ h

-- The client that is deleted has no users and no campaigns.
pub IsLinked-delete_found :
    (db : Database) (n : ℕ) (o : Option Client) → IsLinked db → IsLinked (delete_found db n o).0
IsLinked-delete_found db n none h = h
IsLinked-delete_found db n (some c) h =
    let used = ltb 0 (length (rows (is_user_of n) db.users)) in
    let booked = ltb 0 (length (rows (is_campaign_of n) db.campaigns)) in
    IsLinked-if (used || booked) (db, refused conflict) _ (λ e. h)
      (λ e.
        let f = neither used booked e in
        (
          All-both _ _ _ db.users (λ u k l. kept_user u.client_id n db.clients k l) h.0
              (rows-none (is_user_of n) db.users f.0),
          All-both _ _ _ db.campaigns (λ a k l. has_client-deleted a.client_id n db.clients l ∙ k)
              h.1 (rows-none (is_campaign_of n) db.campaigns f.1),
          h.2,
        ))
