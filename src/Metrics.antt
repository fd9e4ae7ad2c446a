-- ===== src/Metrics.antt =====
-- The arithmetic of affiliate-reconciliation-backend/app/utils/metrics.py and the delays of
-- app/utils/backoff.py. Floats are exact fractions here. Metrics are not negative: the request
-- schemas demand it of claims (`ge=0`), and the platforms report counts.
pub mod Growth
pub mod Backoff
mod Examples
use affiliate_platform.Config.{base_seconds, factor, max_seconds, jitter_pct, hour}
use affiliate_platform.Prelude.{
  ℕ, zero, ◌+◌, ◌-◌, ◌*◌, ◌/◌, ◌^◌, min, not, ◌&&◌, Option, ltb, leb, ◌==◌, if◌then◌else◌,
  get_or_else, Ratio, round_half_even,
}

-- `abs(a - b)`.
abbrev pub distance : ℕ → ℕ → ℕ
distance a b = if leb b a then a - b else b - a

-- `safe_div`: 0.0 for a zero denominator.
unfoldable pub safe_div : ℕ → ℕ → Ratio
safe_div n d = if d == 0 then record { num = 0; den = 1 } else record { num = n; den = d }

-- `pct_diff`: the difference as a fraction of the platform's value; 0.0 if both are zero, and 1.0
-- if only the platform's is. It never returns None.
unfoldable pub pct_diff : ℕ → ℕ → Ratio
pct_diff affiliate_value platform_value =
    if platform_value == 0 && affiliate_value == 0
    then record { num = 0; den = 1 }
    else if platform_value == 0
    then record { num = 1; den = 1 }
    else record { num = distance affiliate_value platform_value; den = platform_value }

-- `apply_growth_allowance`, with the elapsed time in microseconds: the hours are capped, and the
-- platform's value times 1 + growth_per_hour * hours is rounded. The fraction has the denominator
-- 100 * hour, as the growth is in hundredths.
unfoldable pub apply_growth_allowance : ℕ → ℕ → ℕ → ℕ → ℕ
apply_growth_allowance platform_value elapsed growth_per_hour cap_hours =
    let capped = min elapsed (cap_hours * hour) in
    round_half_even (platform_value * (100 * hour + growth_per_hour * capped)) (100 * hour)

-- `compute_backoff_seconds`, in thousandths of a second; an argument that is None takes its value
-- from BACKOFF_POLICY. `jitter` stands for `random.uniform`, which is given the ends of its range.
module _ (jitter : ℕ → ℕ → ℕ) where
  unfoldable pub compute_backoff_seconds : ℕ → Option ℕ → Option ℕ → Option ℕ → Option ℕ → ℕ
  compute_backoff_seconds attempt base' factor' max_seconds' jitter_pct' =
      let n = if ltb attempt 1 then 1 else attempt in
      let b = get_or_else base' base_seconds in
      let f = get_or_else factor' factor in
      let m = get_or_else max_seconds' max_seconds in
      let pct = get_or_else jitter_pct' jitter_pct in
      let delay = 1000 * min (b * f ^ (n - 1)) m in
      if ltb 0 pct then jitter (delay - delay * pct / 100) (delay + delay * pct / 100) else delay
