-- ===== src/Endpoints/Resolution.antt =====
-- The endpoints of alerts (affiliate-reconciliation-backend/app/api/v1/endpoints/alerts.py), which
-- need no authentication, and what becomes of an alert that was resolved.
use affiliate_platform.Prelude.{
  arith, ap, Bool-cases, inr, sym, ◌∙◌, [], none, inl, ◌||◌, if◌then◌else◌, same, All, ◌&&◌, ◌==◌,
  ◌∷◌, true, false, leb, some, String, List, Bool, Option, ℕ, ◌≡◌,
}
use affiliate_platform.Enums.{AlertStatus, open_alert, resolved}
use affiliate_platform.Tables.{
  Found, All-IsIn, first-Found, limit, bad_request, unprocessable, offset, IsIn, not_found, ordered,
  rows, Answer, granted, refused, first, updated,
}

-- A row of the table, with the columns that the endpoints filter by or write.
pub record AlertRow : Type 0 where
  pub id : ℕ
  pub alert_type : String
  pub status : AlertStatus
  pub resolved_by : Option String
  pub resolved_at : Option ℕ
  pub resolution_notes : Option String
  pub created_at : ℕ

pub record AlertResolve : Type 0 where
  pub resolved_by : String
  pub resolution_notes : Option String

abbrev pub is_alert : ℕ → AlertRow → Bool
is_alert n a = a.id == n

abbrev pub is_resolved : AlertStatus → Bool
is_resolved resolved = true
is_resolved open_alert = false

abbrev pub closed : AlertResolve → ℕ → AlertRow → AlertRow
closed d now a = record a {
  status = resolved;
  resolved_by = some d.resolved_by;
  resolved_at = some now;
  resolution_notes = d.resolution_notes;
}

abbrev pub resolve_found :
    List AlertRow → AlertResolve → ℕ → Option AlertRow → List AlertRow × Answer AlertRow
resolve_found alerts d now none = (alerts, refused not_found)
resolve_found alerts d now (some a) =
    if is_resolved a.status
    then (alerts, refused bad_request)
    else (updated (is_alert a.id) (closed d now) alerts, granted (closed d now a))

unfoldable pub resolve_alert :
    List AlertRow → ℕ → AlertResolve → ℕ → List AlertRow × Answer AlertRow
unfolding first updated
resolve_alert alerts alert_id d now = resolve_found alerts d now (first (is_alert alert_id) alerts)

abbrev pub same_alert_status : AlertStatus → AlertStatus → Bool
same_alert_status resolved resolved = true
same_alert_status open_alert open_alert = true
same_alert_status _ _ = false

abbrev pub has_alert_status : Option AlertStatus → AlertRow → Bool
has_alert_status none a = true
has_alert_status (some s) a = same_alert_status a.status s

-- `if alert_type`: the empty text filters nothing.
abbrev pub has_type : Option String → AlertRow → Bool
has_type none a = true
has_type (some t) a = same t "" || same a.alert_type t

abbrev pub passes_filters : Option AlertStatus → Option String → AlertRow → Bool
passes_filters status t a = has_alert_status status a && has_type t a

abbrev pub is_newer_alert : AlertRow → AlertRow → Bool
is_newer_alert a b = leb b.created_at a.created_at

-- `get_alerts`; a limit that is not from 1 to 500 is answered with status 422.
unfoldable pub get_alerts :
    List AlertRow → Option AlertStatus → Option String → ℕ → ℕ → Answer (List AlertRow)
unfolding rows ordered offset limit
get_alerts alerts status t page_limit skip_count =
    if leb 1 page_limit && leb page_limit 500
    then granted (
        limit page_limit
          (offset skip_count (ordered is_newer_alert (rows (passes_filters status t) alerts))))
    else refused unprocessable

-- Calls of `resolve_alert` one after the other.
abbrev pub resolve_all : List AlertRow → List (ℕ × AlertResolve × ℕ) → List AlertRow
resolve_all alerts [] = alerts
resolve_all alerts ((n, d, now) ∷ calls) = resolve_all (resolve_alert alerts n d now).0 calls

-- Rows with different ids.
abbrev pub HasUniqueIds : List AlertRow → Type 0
HasUniqueIds [] = Unit
HasUniqueIds (a ∷ alerts) = All (λ b. is_alert a.id b ≡ false) alerts × HasUniqueIds alerts

-- A row that is kept: it is resolved, and it is in the table.
abbrev pub Stays : AlertRow → List AlertRow → Type 0
Stays a alerts = (is_resolved a.status ≡ true) × IsIn a alerts

updated-IsIn :
    (a : AlertRow) (n : ℕ) (d : AlertResolve) (now : ℕ) (alerts : List AlertRow)
    → is_alert n a ≡ false
    → IsIn a alerts
    → IsIn a (updated (is_alert n) (closed d now) alerts)
unfolding updated
updated-IsIn a n d now [] e m = absurd m
updated-IsIn a n d now (b ∷ alerts) e (inl p) = inl (rw (← p, e))
updated-IsIn a n d now (b ∷ alerts) e (inr m) = inr (updated-IsIn a n d now alerts e m)

-- Two rows of the table with one id are one row.
HasUniqueIds-same :
    (a b : AlertRow) (alerts : List AlertRow)
    → HasUniqueIds alerts
    → IsIn a alerts
    → IsIn b alerts
    → is_alert b.id a ≡ true
    → a ≡ b
HasUniqueIds-same a b [] u m n e = absurd m
HasUniqueIds-same a b (c ∷ alerts) u (inl p) (inl q) e = p ∙ sym q
HasUniqueIds-same a b (c ∷ alerts) u (inr m) (inr n) e = HasUniqueIds-same a b alerts u.1 m n e
HasUniqueIds-same a b (c ∷ alerts) u (inl p) (inr n) e =
    let other : is_alert c.id b ≡ false = All-IsIn (λ r. is_alert c.id r ≡ false) b alerts u.0 n in
    let id : a.id ≡ c.id = ap (λ r. r.id) p in absurd (ground (arith, other, id, e))
HasUniqueIds-same a b (c ∷ alerts) u (inr m) (inl q) e =
    let other : is_alert c.id a ≡ false = All-IsIn (λ r. is_alert c.id r ≡ false) a alerts u.0 m in
    let id : b.id ≡ c.id = ap (λ r. r.id) q in absurd (ground (arith, other, id, e))

updated-ids :
    (a : AlertRow) (n : ℕ) (d : AlertResolve) (now : ℕ) (alerts : List AlertRow)
    → All (λ b. is_alert a.id b ≡ false) alerts
    → All (λ b. is_alert a.id b ≡ false) (updated (is_alert n) (closed d now) alerts)
unfolding updated
updated-ids a n d now [] h = tt
updated-ids a n d now (b ∷ alerts) h = elim (Bool-cases (is_alert n b)) [
  | inl e ↦ rw e (h.0, updated-ids a n d now alerts h.1)
  | inr e ↦ rw e (h.0, updated-ids a n d now alerts h.1)
]

updated-HasUniqueIds :
    (n : ℕ) (d : AlertResolve) (now : ℕ) (alerts : List AlertRow)
    → HasUniqueIds alerts
    → HasUniqueIds (updated (is_alert n) (closed d now) alerts)
unfolding updated
updated-HasUniqueIds n d now [] h = tt
updated-HasUniqueIds n d now (b ∷ alerts) h = elim (Bool-cases (is_alert n b)) [
  | inl e ↦ rw e (updated-ids b n d now alerts h.0, updated-HasUniqueIds n d now alerts h.1)
  | inr e ↦ rw e (updated-ids b n d now alerts h.0, updated-HasUniqueIds n d now alerts h.1)
]

-- One call, with the row that was found.
Stays-resolve_found :
    (a : AlertRow) (alerts : List AlertRow) (d : AlertResolve) (now n : ℕ) (o : Option AlertRow)
    → HasUniqueIds alerts
    → Stays a alerts
    → Found (is_alert n) alerts o
    → HasUniqueIds (resolve_found alerts d now o).0 × Stays a (resolve_found alerts d now o).0
Stays-resolve_found a alerts d now n none u h f = (u, h)
Stays-resolve_found a alerts d now n (some b) u h f = elim (Bool-cases (is_resolved b.status)) [
  | inl e ↦ rw e (u, h)
  | inr e ↦
      let here : IsIn a (updated (is_alert b.id) (closed d now) alerts) =
        elim (Bool-cases (is_alert b.id a)) [
          | inr other ↦ updated-IsIn a b.id d now alerts other h.1
          | inl found ↦
              let row : a ≡ b = HasUniqueIds-same a b alerts u h.1 f.1 found in
              let state : is_resolved a.status ≡ is_resolved b.status =
                ap (λ r. is_resolved r.status) row in
              absurd (let x = h.0 in cc)
        ] in
      rw e (updated-HasUniqueIds b.id d now alerts u, (h.0, here))
]

-- Once an alert is resolved, no later calls of `resolve_alert`, for it or for others, change who
-- resolved it, when and with which notes: in a table with unique ids its row stays as it is.
pub resolve_all-Stays :
    (a : AlertRow) (alerts : List AlertRow) (calls : List (ℕ × AlertResolve × ℕ))
    → HasUniqueIds alerts
    → Stays a alerts
    → Stays a (resolve_all alerts calls)
unfolding resolve_alert
resolve_all-Stays a alerts [] u h = h
resolve_all-Stays a alerts ((n, d, now) ∷ calls) u h =
    let next =
      Stays-resolve_found a alerts d now n (first (is_alert n) alerts) u h
        (first-Found (is_alert n) alerts) in
    resolve_all-Stays a (resolve_alert alerts n d now).0 calls next.0 next.1
