-- ===== src/RateLimiter.antt =====
-- The in-memory rate limiter of affiliate-reconciliation-backend/app/utils/ratelimiter.py.
-- `time.time()` is a parameter `now`, in whole seconds. The asyncio locks are not modelled: the
-- event loop runs `check_and_increment` without a suspension between the read and the write of a
-- bucket, so a call is one step on the buckets.
pub mod Window
pub mod Quota
mod Examples
use affiliate_platform.Prelude.{
  ℕ, ◌+◌, ◌-◌, ◌%◌, Bool, false, Option, none, some, List, [], String, Dict, lookup, insert, ◌==◌,
  leb, if◌then◌else◌,
}

-- `class Bucket`, less its lock.
pub record Bucket : Type 0 where
  pub window_start : ℕ
  pub count : ℕ

-- `self._buckets`: key, then category.
abbrev pub Buckets : Type 0
Buckets = Dict (Dict Bucket)

-- The dictionary `meta` of `check_and_increment`.
pub record Meta : Type 0 where
  pub limit : ℕ
  pub remaining : ℕ
  pub reset_epoch : ℕ
  pub window_start : ℕ
  pub count : ℕ
  pub category : String

-- The dictionary that `get_state` returns.
pub record LimitState : Type 0 where
  pub limit : ℕ
  pub remaining : ℕ
  pub reset_epoch : ℕ
  pub count : ℕ
  pub category : String

-- `now - (now % window_seconds)`.
unfoldable pub window_of : ℕ → ℕ → ℕ
window_of now window_seconds = now - now % window_seconds

-- `self._buckets.get(key)`, or the empty dict that `setdefault` puts there.
unfoldable pub buckets_of : Buckets → String → Dict Bucket
buckets_of bs key = elim (lookup key bs) [ none ↦ [] | some cats ↦ cats ]

-- The bucket of a category, or a new one for this window.
unfoldable pub bucket_of : Dict Bucket → String → ℕ → Bucket
bucket_of cats category start = elim (lookup category cats) [
  | none ↦ record { window_start = start; count = 0 }
  | some b ↦ b
]

-- The body under `bucket.lock`: reset an expired window, then count this request.
unfoldable pub hit : ℕ → Bucket → Bucket
hit start b =
    if b.window_start == start
    then record b { count = b.count + 1 }
    else record { window_start = start; count = 1 }

unfoldable pub check_and_increment : Buckets → ℕ → String → String → ℕ → ℕ → Buckets × Bool × Meta
unfolding window_of buckets_of bucket_of hit
check_and_increment bs now key category limit window_seconds =
    let start = window_of now window_seconds in
    let cats = buckets_of bs key in
    let b = hit start (bucket_of cats category start) in
    let allowed = leb b.count limit in
    (
      insert key (insert category b cats) bs,
      allowed,
      record {
        limit = limit;
        remaining = if allowed then limit - b.count else 0;
        reset_epoch = b.window_start + window_seconds;
        window_start = b.window_start;
        count = b.count;
        category = category;
      },
    )

-- The answer of `get_state` when no request of this window has been counted.
unfoldable pub fresh_state : ℕ → String → ℕ → ℕ → LimitState
fresh_state start category limit window_seconds = record {
  limit = limit;
  remaining = limit;
  reset_epoch = start + window_seconds;
  count = 0;
  category = category;
}

-- `get_state` once the category's bucket, if any, has been found.
unfoldable pub peek : Option Bucket → ℕ → String → ℕ → ℕ → LimitState
unfolding fresh_state
peek none start category limit window_seconds = fresh_state start category limit window_seconds
peek (some b) start category limit window_seconds =
    if b.window_start == start
    then record {
      limit = limit;
      remaining = limit - b.count;
      reset_epoch = b.window_start + window_seconds;
      count = b.count;
      category = category;
    }
    else fresh_state start category limit window_seconds

unfoldable pub get_state : Buckets → ℕ → String → String → ℕ → ℕ → LimitState
unfolding peek window_of buckets_of
get_state bs now key category limit window_seconds =
    peek (lookup category (buckets_of bs key)) (window_of now window_seconds) category limit
      window_seconds
