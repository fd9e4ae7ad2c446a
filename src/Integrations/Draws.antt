-- ===== src/Integrations/Draws.antt =====
-- What the mock integrations draw (`random.randint`, `random.uniform`, `random.choice` and the simulated
-- failure of affiliate-reconciliation-backend/app/integrations).
use affiliate_platform.Prelude.{ℕ, ◌*◌, ◌/◌, ◌≤◌, ◌<◌, Bool, Ratio, arith, mul_mono}

-- The first `randint`, a factor and a whole number for each other place of the code in its order, the coin of
-- `choice`, and whether `random() < 0.05`.
pub record Drawn : Type 0 where
  pub fails : Bool
  pub base : ℕ
  pub factor : ℕ → Ratio
  pub whole : ℕ → ℕ
  pub coin : Bool

-- `int(base * factor)`
unfoldable pub scaled : ℕ → Ratio → ℕ
scaled base r = base * r.num / r.den

-- `random.uniform(lo, hi)`, in thousandths: Python documents that it lies between its bounds.
pub record Between (lo hi : ℕ) (r : Ratio) : Type 0 where
  pub positive : 0 < r.den
  pub above : lo * r.den ≤ 1000 * r.num
  pub below : 1000 * r.num ≤ hi * r.den

div_le : (a d : ℕ) → 0 < d → a / d * d ≤ a
div_le a d pos = grind arith

le_div : (b n d : ℕ) → 0 < d → b * d ≤ n → b ≤ n / d
le_div b n d pos h = grind arith

cancel : (x y d : ℕ) → 0 < d → x * d ≤ y * d → x ≤ y
cancel x y d pos h = grind arith

-- A scaled number is at most its factor's upper bound of the number.
pub scaled-le : (b lo hi : ℕ) (r : Ratio) → Between lo hi r → 1000 * scaled b r ≤ hi * b
unfolding scaled
scaled-le b lo hi r h =
    let floor = div_le (b * r.num) r.den h.positive in
    cancel (1000 * (b * r.num / r.den)) (hi * b) r.den h.positive
      (omega (arith, mul_mono _ _ 1000 floor, mul_mono _ _ b h.below))

-- With a factor of at least 1 it is no smaller.
pub le-scaled : (b hi : ℕ) (r : Ratio) → Between 1000 hi r → b ≤ scaled b r
unfolding scaled
le-scaled b hi r h =
    le_div b (b * r.num) r.den h.positive
      (cancel _ _ 1000 (omega arith) (omega (arith, mul_mono _ _ b h.above)))
