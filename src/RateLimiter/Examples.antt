-- ===== src/RateLimiter/Examples.antt =====
-- The rate limiter at work on small inputs.
use affiliate_platform.Prelude.{insert, ℕ, lookup, ◌≡◌, refl, List, [], ◌∷◌}
use affiliate_platform.RateLimiter.{Buckets, check_and_increment}
use affiliate_platform.RateLimiter.Quota.{Request, granted}

abbrev request_at : ℕ → Request
request_at t = record {
  now = t;
  key = "k1";
  category = "submission";
  limit = 2;
  window_seconds = 60;
}

-- Two calls of the window from 60 are granted, the third is not, and the next window starts anew.
abbrev requests : List Request
requests = request_at 61 ∷ request_at 70 ∷ request_at 119 ∷ request_at 120 ∷ []

abbrev one_hit : Buckets
one_hit = ("k1", ("submission", record { window_start = 60; count = 1 }) ∷ []) ∷ []

first_check : (check_and_increment [] 61 "k1" "submission" 2 60).0 ≡ one_hit
unfolding check_and_increment lookup insert
first_check = refl

granted-requests : granted "k1" "submission" 60 [] requests ≡ 2
unfolding granted check_and_increment lookup insert
granted-requests = refl
