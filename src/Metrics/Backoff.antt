-- ===== src/Metrics/Backoff.antt =====
-- The delays between attempts (affiliate-reconciliation-backend/app/utils/backoff.py).
use affiliate_platform.Config.{max_seconds, base_seconds, factor, jitter_pct}
use native.Mathlib.Nat.{pow-le-pow_right}
use affiliate_platform.Prelude.{
  mul_mono, ℕ, suc, ◌+◌, ◌-◌, ◌*◌, ◌/◌, ◌^◌, ◌≤◌, min, ◌≡◌, none, some, arith, ltb, if◌then◌else◌,
}
use affiliate_platform.Metrics.{compute_backoff_seconds}

-- What `random.uniform(a, b)` promises: a value from a to b.
abbrev pub IsUniform : (ℕ → ℕ → ℕ) → Type 0
IsUniform jitter = (a b : ℕ) → a ≤ b → (a ≤ jitter a b) × (jitter a b ≤ b)

-- The exponent of the delay: an attempt below the first counts as the first.
abbrev exponent : ℕ → ℕ
exponent n = (if ltb n 1 then 1 else n) - 1

exponent-suc : (n : ℕ) → exponent (suc n) ≡ n
exponent-suc n = ground arith

exponent_mono : (n m : ℕ) → n ≤ m → exponent n ≤ exponent m
exponent_mono n m h = ground arith

jitter_bounds :
    (jitter : ℕ → ℕ → ℕ) (x : ℕ)
    → IsUniform jitter
    → x ≤ max_seconds
    → let lo = 1000 * x - 1000 * x * jitter_pct / 100 in
      let hi = 1000 * x + 1000 * x * jitter_pct / 100 in
      (900 * x ≤ jitter lo hi) × (jitter lo hi ≤ 1100 * x) × (jitter lo hi ≤ 66000)
jitter_bounds jitter x u h =
    let lo = 1000 * x - 1000 * x * jitter_pct / 100 in
    let hi = 1000 * x + 1000 * x * jitter_pct / 100 in
    let between = u lo hi (omega arith) in (omega arith, omega arith, omega arith)

-- With the default settings and any jitter, the delay after attempt n + 1 is within a tenth of
-- 2 ^ n seconds or of 60 seconds, whichever is less; so it is never more than 66 seconds.
pub compute_backoff_seconds_bounds :
    (jitter : ℕ → ℕ → ℕ) (n : ℕ)
    → IsUniform jitter
    → let delay = compute_backoff_seconds jitter (suc n) none none none none in
      (900 * min (2 ^ n) max_seconds ≤ delay)
      × (delay ≤ 1100 * min (2 ^ n) max_seconds)
      × (delay ≤ 66000)
unfolding compute_backoff_seconds
compute_backoff_seconds_bounds jitter n u =
    let e : min (base_seconds * factor ^ exponent (suc n)) max_seconds ≡ min (2 ^ n) max_seconds =
      rw (exponent-suc n) (omega arith) in
    rw e (jitter_bounds jitter (min (2 ^ n) max_seconds) u (omega arith))

-- Without jitter a later attempt never waits less, whatever the base and the limit are and for a
-- factor of at least one.
pub compute_backoff_seconds_mono :
    (jitter : ℕ → ℕ → ℕ) (n m b f limit : ℕ)
    → 1 ≤ f
    → n ≤ m
    → compute_backoff_seconds jitter n (some b) (some f) (some limit) (some 0)
      ≤ compute_backoff_seconds jitter m (some b) (some f) (some limit) (some 0)
unfolding compute_backoff_seconds
compute_backoff_seconds_mono jitter n m b f limit h k =
    let grows : f ^ exponent n ≤ f ^ exponent m = pow-le-pow_right h (exponent_mono n m k) in
    let scaled : b * f ^ exponent n ≤ b * f ^ exponent m = mul_mono _ _ b grows in omega arith
