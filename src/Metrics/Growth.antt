-- ===== src/Metrics/Growth.antt =====
-- The growth allowance: what it can add, and that it grows with time and with the platform's value
-- (affiliate-reconciliation-backend/app/utils/metrics.py).
use affiliate_platform.Config.{growth_per_hour_pct, growth_cap_hours, hour}
use affiliate_platform.Prelude.{mul_mono, ℕ, ◌+◌, ◌*◌, ◌≤◌, min, ◌≡◌, arith, round_half_even}
use affiliate_platform.Metrics.{apply_growth_allowance}

-- The denominator of the scaled value.
abbrev unit : ℕ
unit = 100 * hour

-- The rounded fraction is at most a half away from the exact one.
round_near :
    (n : ℕ)
    → (2 * unit * round_half_even n unit ≤ 2 * n + unit)
      × (2 * n ≤ 2 * unit * round_half_even n unit + unit)
unfolding round_half_even
round_near n = ground arith

round_mono : (n m : ℕ) → n ≤ m → round_half_even n unit ≤ round_half_even m unit
unfolding round_half_even
round_mono n m h = ground arith

round_exact : (n : ℕ) → round_half_even (n * unit) unit ≡ n
unfolding round_half_even
round_exact n = ground arith

-- The allowance never lowers a value, leaves it as it is when no time has passed, and adds at most
-- a tenth per hour of the first 24 hours, up to the rounding of a half.
pub apply_growth_allowance_bounds :
    (v elapsed : ℕ)
    → let a = apply_growth_allowance v elapsed growth_per_hour_pct growth_cap_hours in
      (v ≤ a)
      × (10 * a ≤ 34 * v + 5)
      × (apply_growth_allowance v 0 growth_per_hour_pct growth_cap_hours ≡ v)
unfolding apply_growth_allowance
apply_growth_allowance_bounds v elapsed =
    let hours = min elapsed (growth_cap_hours * hour) in
    let scaled = v * (unit + growth_per_hour_pct * hours) in
    let capped = mul_mono hours (growth_cap_hours * hour) v (omega arith) in
    (
      omega (arith, round_exact v, round_mono (v * unit) scaled (mul_mono unit _ v (omega arith))),
      omega (arith, (round_near scaled).0, capped),
      round_exact v,
    )

pub apply_growth_allowance_late :
    (v elapsed : ℕ)
    → growth_cap_hours * hour ≤ elapsed
    → 34 * v ≤ 10 * apply_growth_allowance v elapsed growth_per_hour_pct growth_cap_hours + 5
unfolding apply_growth_allowance
apply_growth_allowance_late v elapsed h =
    let hours = min elapsed (growth_cap_hours * hour) in
    let scaled = v * (unit + growth_per_hour_pct * hours) in
    omega (arith, (round_near scaled).1, mul_mono (growth_cap_hours * hour) hours v (omega arith))

-- Neither more time nor a greater platform value lowers the adjusted value.
pub apply_growth_allowance_mono :
    (v w s t : ℕ)
    → v ≤ w
    → s ≤ t
    → apply_growth_allowance v s growth_per_hour_pct growth_cap_hours
      ≤ apply_growth_allowance w t growth_per_hour_pct growth_cap_hours
unfolding apply_growth_allowance
apply_growth_allowance_mono v w s t h k =
    let factor = λ (e : ℕ). unit + growth_per_hour_pct * min e (growth_cap_hours * hour) in
    round_mono (v * factor s) (w * factor t)
      (omega (arith, mul_mono v w (factor s) h, mul_mono (factor s) (factor t) w (omega arith)))
