-- ===== src/Metrics/Examples.antt =====
-- The metric arithmetic and the delays at work on small inputs.
use affiliate_platform.Config.{growth_per_hour_pct, growth_cap_hours, hour}
use affiliate_platform.Prelude.{ℕ, ◌*◌, ◌≡◌, refl, none, some, arith, round_half_even}
use affiliate_platform.Metrics.{safe_div, pct_diff, apply_growth_allowance, compute_backoff_seconds}
use affiliate_platform.Metrics.Backoff.{IsUniform}

-- 1000 views grow by a tenth in an hour, and by no more than 240 % in two days; halves go to even.
grown :
    (apply_growth_allowance 1000 (1 * hour) growth_per_hour_pct growth_cap_hours ≡ 1100)
    × (apply_growth_allowance 1000 (48 * hour) growth_per_hour_pct growth_cap_hours ≡ 3400)
    × (apply_growth_allowance 5 (1 * hour) growth_per_hour_pct growth_cap_hours ≡ 6)
    × (apply_growth_allowance 25 (1 * hour) growth_per_hour_pct growth_cap_hours ≡ 28)
unfolding apply_growth_allowance round_half_even
grown = (refl, refl, refl, refl)

differences :
    (pct_diff 0 0 ≡ record { num = 0; den = 1 })
    × (pct_diff 7 0 ≡ record { num = 1; den = 1 })
    × (pct_diff 80 100 ≡ record { num = 20; den = 100 })
    × (safe_div 3 0 ≡ record { num = 0; den = 1 })
unfolding pct_diff safe_div
differences = (refl, refl, refl, refl)

-- The lower end of the range: a generator that `random.uniform` may be.
abbrev least : ℕ → ℕ → ℕ
least a b = a

least-IsUniform : IsUniform least
least-IsUniform a b h = (omega arith, h)

backoffs :
    (compute_backoff_seconds least 1 none none none none ≡ 900)
    × (compute_backoff_seconds least 4 none none none none ≡ 7200)
    × (compute_backoff_seconds least 9 none none none (some 0) ≡ 60000)
unfolding compute_backoff_seconds
backoffs = (refl, refl, refl)
