-- ===== src/Prelude/Fraction.antt =====
-- Exact fractions with a denominator above zero, in place of Python's floats, and the rounding
-- of `round`.
use Prim.Native.Nat.{ℕ, ◌+◌, ◌*◌, ◌/◌, ◌%◌, ◌≤◌, ◌<◌}
use mathlib.Core.Bool.{Bool}
use native.Mathlib.Omega.{arith}
use affiliate_platform.Prelude.Tests.{mul_mono, ltb, leb, ◌==◌, if◌then◌else◌}

pub record Ratio : Type 0 where
  pub num : ℕ
  pub den : ℕ

abbrev pub IsRatio : Ratio → Type 0
IsRatio r = 0 < r.den

-- `a <= b` on fractions.
abbrev pub leb_ratio : Ratio → Ratio → Bool
leb_ratio a b = leb (a.num * b.den) (b.num * a.den)

-- `max(a, b)`: Python keeps the first of two equal values.
abbrev pub max_ratio : Ratio → Ratio → Ratio
max_ratio a b = if leb_ratio b a then a else b

-- n / d as an integer, rounded half to even as Python's `round` does.
unfoldable pub round_half_even : ℕ → ℕ → ℕ
round_half_even n d =
    let q = n / d in
    let r2 = 2 * (n % d) in
    if ltb r2 d then q else if ltb d r2 then q + 1 else if q % 2 == 0 then q else q + 1

-- Cancels the denominator in a chain a/b ≤ c/d ≤ p/q.
mul_cancel : (x y d : ℕ) → 0 < d → x * d ≤ y * d → x ≤ y
mul_cancel x y d pos h = grind arith

pub le_trans_ratio :
    (a b c : Ratio)
    → IsRatio b
    → a.num * b.den ≤ b.num * a.den
    → b.num * c.den ≤ c.num * b.den
    → a.num * c.den ≤ c.num * a.den
le_trans_ratio a b c pos h k =
    mul_cancel (a.num * c.den) (c.num * a.den) b.den pos
      (omega (arith, mul_mono _ _ c.den h, mul_mono _ _ a.den k))

-- The rounded fraction is at most a half above the exact one.
pub round_half_even_near : (n d : ℕ) → 0 < d → 2 * d * round_half_even n d ≤ 2 * n + d
unfolding round_half_even
round_half_even_near n d pos = grind arith
