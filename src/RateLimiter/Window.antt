-- ===== src/RateLimiter/Window.antt =====
-- One call of the limiter: the window it counts in, what it answers, and which buckets it leaves
-- alone (affiliate-reconciliation-backend/app/utils/ratelimiter.py).
use native.Mathlib.Nat.{
  div-add-mod, mul-mod_right, lt-mul-div-succ, div-mul-le_self, le-div_iff_mul-le, div-eq_of_lt-le,
  mul-div-le,
}
use affiliate_platform.Prelude.{
  mul_mono, ℕ, ◌+◌, ◌-◌, ◌%◌, ◌/◌, ◌*◌, ◌≤◌, ◌<◌, ◌≡◌, ◌∙◌, ◌==◌, ◌≢◌, ◌⊎◌, ap, Option, some, none,
  String, arith, lookup, insert, same_iff, lookup-insert, lookup-insert_self, leb, if◌then◌else◌,
}
use affiliate_platform.RateLimiter.{
  Bucket, Buckets, window_of, buckets_of, bucket_of, hit, check_and_increment, get_state,
}

window_of-div : (now w : ℕ) → window_of now w ≡ w * (now / w)
unfolding window_of
window_of-div now w = omega (arith, div-add-mod now w)

-- The window of a time begins at a multiple of the window's length, not after the time, and ends
-- after it.
pub window_bounds :
    (now w : ℕ)
    → 0 < w
    → (window_of now w ≤ now) × (now < window_of now w + w) × (window_of now w % w ≡ 0)
window_bounds now w h =
    rw (window_of-div now w)
      (mul-div-le now w, omega (arith, lt-mul-div-succ now h), mul-mod_right w (now / w))

-- A later time has no earlier window.
pub window_mono : (a b w : ℕ) → 0 < w → a ≤ b → window_of a w ≤ window_of b w
window_mono a b w h k =
    rw (window_of-div a w, window_of-div b w)
      (mul_mono (a / w) (b / w) w ((le-div_iff_mul-le h).1 (omega (arith, div-mul-le_self a w))))

-- A time that falls in a window has that window.
pub window_unique :
    (a b w : ℕ) → 0 < w → window_of a w ≤ b → b < window_of a w + w → window_of b w ≡ window_of a w
window_unique a b w h k l =
    let low : w * (a / w) ≤ b = rw window_of-div at k in
    let high : b < w * (a / w) + w = rw window_of-div at l in
    rw (window_of-div b w, window_of-div a w)
      (ap (λ (q : ℕ). w * q) (div-eq_of_lt-le w (omega arith) (omega arith)))

-- What the limiter keeps for one category of one key.
unfoldable pub stored : Buckets → String → String → Option Bucket
stored bs key category = lookup category (buckets_of bs key)

-- A write of one category's bucket is read back, and no other bucket changes.
pub stored-insert_self :
    (bs : Buckets) (key category : String) (b : Bucket)
    → stored (insert key (insert category b (buckets_of bs key)) bs) key category ≡ some b
unfolding stored buckets_of
stored-insert_self bs key category b = ground (
  arith,
  lookup-insert_self key (insert category b (buckets_of bs key)) bs,
  lookup-insert_self category b (buckets_of bs key),
)

pub stored-insert_ne :
    (bs : Buckets) (key category k c : String) (b : Bucket)
    → (k ≢ key) ⊎ (c ≢ category)
    → stored (insert key (insert category b (buckets_of bs key)) bs) k c ≡ stored bs k c
unfolding stored buckets_of
stored-insert_ne bs key category k c b h = ground (
  arith,
  lookup-insert key k (insert category b (buckets_of bs key)) bs,
  lookup-insert category c b (buckets_of bs key),
  same_iff key k,
  same_iff category c,
)

-- How many requests of the window from `start` a stored bucket has counted.
abbrev pub used : Option Bucket → ℕ → ℕ
used none start = 0
used (some b) start = if b.window_start == start then b.count else 0

-- The bucket that a call stores counts one request more in its window than the one found there.
hit-used :
    (bs : Buckets) (key category : String) (start : ℕ)
    → hit start (bucket_of (buckets_of bs key) category start)
      ≡ record { window_start = start; count = used (stored bs key category) start + 1 }
unfolding hit bucket_of stored
hit-used bs key category start = ground arith

-- A call stores a bucket of its own window that counts one request more than that window had, is
-- allowed exactly if the new count is within the limit, and reports the count, what is left of the
-- limit, and the end of the window.
pub check_and_increment_lem :
    (bs : Buckets) (now : ℕ) (key category : String) (limit w : ℕ)
    → let (bs', allowed, info) = check_and_increment bs now key category limit w in
      let start = window_of now w in
      let count = used (stored bs key category) start + 1 in
      (stored bs' key category ≡ some (record { window_start = start; count = count }))
      × (allowed ≡ leb count limit)
      × (info ≡ record {
        limit = limit;
        remaining = limit - count;
        reset_epoch = start + w;
        window_start = start;
        count = count;
        category = category;
      })
unfolding check_and_increment
check_and_increment_lem bs now key category limit w =
    let e = hit-used bs key category (window_of now w) in
    (stored-insert_self bs key category _ ∙ ap some e, rw e, rw e (ground arith))

-- A call leaves every other bucket alone: another key's, or another category's of the same key.
pub check_and_increment_frame :
    (bs : Buckets) (now : ℕ) (key category k c : String) (limit w : ℕ)
    → (k ≢ key) ⊎ (c ≢ category)
    → stored (check_and_increment bs now key category limit w).0 k c ≡ stored bs k c
unfolding check_and_increment
check_and_increment_frame bs now key category k c limit w h =
    stored-insert_ne bs key category k c _ h

-- What `get_state` reports is read off the stored bucket, and a bucket of another window counts as
-- empty.
pub get_state_lem :
    (bs : Buckets) (now : ℕ) (key category : String) (limit w : ℕ)
    → get_state bs now key category limit w ≡ record {
      limit = limit;
      remaining = limit - used (stored bs key category) (window_of now w);
      reset_epoch = window_of now w + w;
      count = used (stored bs key category) (window_of now w);
      category = category;
    }
unfolding get_state stored
get_state_lem bs now key category limit w = ground arith

-- After a call, and until its window ends, `get_state` reports the count, the rest and the reset
-- time that the call returned.
pub get_state-check_and_increment :
    (bs : Buckets) (now later : ℕ) (key category : String) (limit w : ℕ)
    → 0 < w
    → now ≤ later
    → later < window_of now w + w
    → let (bs', _, info) = check_and_increment bs now key category limit w in
      get_state bs' later key category limit w ≡ record {
        limit = limit;
        remaining = info.remaining;
        reset_epoch = info.reset_epoch;
        count = info.count;
        category = category;
      }
get_state-check_and_increment bs now later key category limit w pos k l = ground (
  arith,
  get_state_lem (check_and_increment bs now key category limit w).0 later key category limit w,
  check_and_increment_lem bs now key category limit w,
  window_unique now later w,
  window_bounds now w,
)
