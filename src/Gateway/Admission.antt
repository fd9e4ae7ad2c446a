-- ===== src/Gateway/Admission.antt =====
-- How many requests reach the router (affiliate-reconciliation-backend/app/main.py, on
-- utils/ratelimiter.py).
use affiliate_platform.Prelude.{
  false, true, ap, refl, same_iff, ◌<◌, ◌≤◌, ◌==◌, ◌&&◌, [], arith, ◌+◌, ◌≡◌, length,
}
use affiliate_platform.Gateway.{
  setting_of, same, ◌∷◌, map, Bool, ℕ, String, List, Incoming, Served, Gateway, category, key_of,
  limit_of, window_seconds_of, serve, serve_all, rate_limit_middleware,
}
use affiliate_platform.RateLimiter.Quota.{granted-le-limit, Ordered, Request, concerns, granted}
use affiliate_platform.RateLimiter.{window_of}
use affiliate_platform.Tables.{rows}

-- The call of the limiter that a request makes.
abbrev pub call_of : Incoming → Request
call_of r = record {
  now = r.now;
  key = key_of r;
  category = category r;
  limit = limit_of r;
  window_seconds = window_seconds_of r;
}

-- A request for this category with this key, in the window from `start`.
abbrev pub is_in_window : String → String → ℕ → Incoming → Bool
is_in_window key c start r =
    concerns key c (call_of r) && (window_of r.now (window_seconds_of r) == start)

-- One request reaches the router exactly if the limiter grants it.
serve-seen :
    (router : List Incoming → Incoming → Served) (key c : String) (start : ℕ) (g : Gateway)
    (r : Incoming) (rs : List Request)
    → length (rows (is_in_window key c start) (serve router g r).0.seen)
        + granted key c start (serve router g r).0.buckets rs
      ≡ length (rows (is_in_window key c start) g.seen)
        + granted key c start g.buckets (call_of r ∷ rs)
unfolding serve rate_limit_middleware granted rows
serve-seen router key c start g r rs = ground arith

serve_all-seen :
    (router : List Incoming → Incoming → Served) (key c : String) (start : ℕ) (g : Gateway)
    (rs : List Incoming)
    → length (rows (is_in_window key c start) (serve_all router g rs).seen)
      ≡ length (rows (is_in_window key c start) g.seen)
        + granted key c start g.buckets (map call_of rs)
unfolding serve_all granted
serve_all-seen router key c start g [] = omega arith
serve_all-seen router key c start g (r ∷ rs) = omega (
  arith,
  serve-seen router key c start g r (map call_of rs),
  serve_all-seen router key c start (serve router g r).0 rs,
)

-- The clock does not run backwards.
abbrev pub InOrder : ℕ → List Incoming → Type 0
InOrder t [] = Unit
InOrder t (r ∷ rs) = (t ≤ r.now) × InOrder r.now rs

and_right : (a b : Bool) → (a && b) ≡ true → b ≡ true
and_right a b h = ground arith

-- The role of the user does not matter outside the category `default`.
limit_of-setting :
    (r : Incoming) (c : String)
    → same c "default" ≡ false
    → category r ≡ c
    → (limit_of r ≡ (setting_of c).limit) × (window_seconds_of r ≡ (setting_of c).window_seconds)
unfolding limit_of
limit_of-setting r c d e = (rw (e, d) refl, ap (λ x. (setting_of x).window_seconds) e)

calls-Ordered :
    (key c : String) (t : ℕ) (rs : List Incoming)
    → same c "default" ≡ false
    → InOrder t rs
    → Ordered key c (setting_of c).limit (setting_of c).window_seconds t (map call_of rs)
calls-Ordered key c t [] d h = tt
calls-Ordered key c t (r ∷ rs) d h = (
  h.0,
  (λ concerned. limit_of-setting r c d (
      (same_iff (category r) c).0
        (and_right (same (key_of r) key) (same (category r) c) concerned))),
  calls-Ordered key c r.now rs d h.1,
)

-- Whatever the endpoints do, of any sequence of requests in the order of the clock, no more requests
-- of a category other than `default` with the same key reach the router in a window than the settings
-- of the category allow, whoever sends them.
pub serve_all-limit :
    (router : List Incoming → Incoming → Served) (key c : String) (start : ℕ) (rs : List Incoming)
    → same c "default" ≡ false
    → 0 < (setting_of c).window_seconds
    → InOrder 0 rs
    → length (
        rows
          (is_in_window key c start)
          (serve_all router (record { buckets = []; seen = [] }) rs).seen)
      ≤ (setting_of c).limit
unfolding rows
serve_all-limit router key c start rs d pos h = omega (
  arith,
  serve_all-seen router key c start (record { buckets = []; seen = [] }) rs,
  granted-le-limit key c (setting_of c).limit (setting_of c).window_seconds start (map call_of rs)
      pos (calls-Ordered key c 0 rs d h),
)
