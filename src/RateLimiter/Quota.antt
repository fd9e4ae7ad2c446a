-- ===== src/RateLimiter/Quota.antt =====
-- What the limiter promises over a sequence of requests: in any window a category of a key is
-- granted at most its limit, and the first `limit` requests of a window are granted
-- (affiliate-reconciliation-backend/app/utils/ratelimiter.py).
use affiliate_platform.Prelude.{
  ℕ, suc, ◌+◌, ◌≤◌, ◌<◌, ◌≡◌, ◌≢◌, ◌⊎◌, inl, inr, refl, Bool, true, false, Option, some, none, ◌&&◌,
  List, [], ◌∷◌, String, arith, lookup, same, same_iff, ◌==◌, if◌then◌else◌, Bool-cases, min,
  length,
}
use affiliate_platform.RateLimiter.{Bucket, Buckets, window_of, buckets_of, check_and_increment}
use affiliate_platform.RateLimiter.Window.{
  stored, used, check_and_increment_lem, check_and_increment_frame, window_mono,
}

-- One call of `check_and_increment` by some client at some time.
pub record Request : Type 0 where
  pub now : ℕ
  pub key : String
  pub category : String
  pub limit : ℕ
  pub window_seconds : ℕ

-- The request counts against this category of this key.
abbrev pub concerns : String → String → Request → Bool
concerns key category r = same r.key key && same r.category category

-- How many of the calls for this category of this key were granted in the window from `start`.
unfoldable pub granted : String → String → ℕ → Buckets → List Request → ℕ
granted key category start bs [] = 0
granted key category start bs (r ∷ rs) =
    let (bs', allowed, _) =
      check_and_increment bs r.now r.key r.category r.limit r.window_seconds in
    let rest = granted key category start bs' rs in
    if concerns key category r && (window_of r.now r.window_seconds == start) && allowed
    then suc rest
    else rest

-- The clock does not run backwards, from `t` on, and every call for this category of this key
-- gives the same limit and window length.
abbrev pub Ordered : String → String → ℕ → ℕ → ℕ → List Request → Type 0
Ordered key category limit w t [] = Unit
Ordered key category limit w t (r ∷ rs) =
    (t ≤ r.now)
    × (concerns key category r ≡ true → (r.limit ≡ limit) × (r.window_seconds ≡ w))
    × Ordered key category limit w r.now rs

-- The stored bucket is of no later window than this one.
abbrev IsPast : Option Bucket → ℕ → Type 0
IsPast none start = Unit
IsPast (some b) start = b.window_start ≤ start

-- No call is counted in a window that is over.
granted_past :
    (key category : String) (limit w start t : ℕ) (bs : Buckets) (rs : List Request)
    → 0 < w
    → start < window_of t w
    → Ordered key category limit w t rs
    → granted key category start bs rs ≡ 0
unfolding granted
granted_past key category limit w start t bs [] pos past h = refl
granted_past key category limit w start t bs (r ∷ rs) pos past h = ground (
  arith,
  window_mono t r.now w pos h.0,
  h.1,
  granted_past key category limit w start r.now
      (check_and_increment bs r.now r.key r.category r.limit r.window_seconds).0 rs pos,
)

concerned :
    (key category : String) (r : Request)
    → concerns key category r ≡ true
    → (r.key ≡ key) × (r.category ≡ category)
concerned key category r h = ground (arith, same_iff r.key key, same_iff r.category category)

unconcerned :
    (key category : String) (r : Request)
    → concerns key category r ≡ false
    → (key ≢ r.key) ⊎ (category ≢ r.category)
unconcerned key category r h = ground (arith, same_iff r.key key, same_iff r.category category)

-- In the window from `start` no more calls are granted than what the stored bucket leaves of the
-- limit.
granted-used :
    (key category : String) (limit w start t : ℕ) (bs : Buckets) (rs : List Request)
    → 0 < w
    → IsPast (stored bs key category) (window_of t w)
    → Ordered key category limit w t rs
    → granted key category start bs rs + min limit (used (stored bs key category) start) ≤ limit
unfolding granted
granted-used key category limit w start t bs [] pos past h = omega arith
granted-used key category limit w start t bs (r ∷ rs) pos past h =
    let bs' = (check_and_increment bs r.now r.key r.category r.limit r.window_seconds).0 in
    elim (Bool-cases (concerns key category r)) [
      | inl ours ↦ ground (
        arith,
        concerned key category r ours,
        h.1 ours,
        check_and_increment_lem bs r.now r.key r.category r.limit r.window_seconds,
        window_mono t r.now w pos h.0,
        granted_past key category limit w start r.now bs' rs pos,
        granted-used key category limit w start r.now bs' rs pos,
      )
      | inr other ↦ ground (
        arith,
        check_and_increment_frame bs r.now r.key r.category key category r.limit r.window_seconds
            (unconcerned key category r other),
        window_mono t r.now w pos h.0,
        granted-used key category limit w start r.now bs' rs pos,
      )
    ]

-- Over any sequence of calls from an empty limiter, with a clock that does not run backwards and,
-- for one category of one key, always the same limit and window length, no window of that category
-- is granted more calls than the limit.
pub granted-le-limit :
    (key category : String) (limit w start : ℕ) (rs : List Request)
    → 0 < w
    → Ordered key category limit w 0 rs
    → granted key category start [] rs ≤ limit
unfolding stored buckets_of lookup
granted-le-limit key category limit w start rs pos h =
    omega (arith, granted-used key category limit w start 0 [] rs pos tt h)

-- Every call is for this category of this key, gives this limit, and falls in the window from
-- `start`.
abbrev pub Burst : String → String → ℕ → ℕ → List Request → Type 0
Burst key category limit start [] = Unit
Burst key category limit start (r ∷ rs) =
    (concerns key category r ≡ true)
    × (r.limit ≡ limit)
    × (window_of r.now r.window_seconds ≡ start)
    × Burst key category limit start rs

granted-Burst :
    (key category : String) (limit start : ℕ) (bs : Buckets) (rs : List Request)
    → Burst key category limit start rs
    → granted key category start bs rs + min limit (used (stored bs key category) start)
      ≡ min limit (used (stored bs key category) start + length rs)
unfolding granted
granted-Burst key category limit start bs [] h = omega arith
granted-Burst key category limit start bs (r ∷ rs) h =
    let bs' = (check_and_increment bs r.now r.key r.category r.limit r.window_seconds).0 in
    ground (
      arith,
      concerned key category r h.0,
      h.1,
      h.2,
      check_and_increment_lem bs r.now r.key r.category r.limit r.window_seconds,
      granted-Burst key category limit start bs' rs h.3,
    )

-- Of the calls of one window that is new to the limiter, as many are granted as there are, or as the
-- limit allows if that is fewer.
pub granted-eq-min :
    (key category : String) (limit start : ℕ) (rs : List Request)
    → Burst key category limit start rs
    → granted key category start [] rs ≡ min limit (length rs)
unfolding stored buckets_of lookup
granted-eq-min key category limit start rs h =
    omega (arith, granted-Burst key category limit start [] rs h)
