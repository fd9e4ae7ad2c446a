-- ===== src/Classifier/Thresholds.antt =====
-- The tests on percentages, as statements about the numbers behind them
-- (affiliate-reconciliation-backend/app/services/discrepancy_classifier.py).
use affiliate_platform.Prelude.{
  ℕ, ◌-◌, ◌*◌, ◌≤◌, ◌<◌, ◌≡◌, ◌↔◌, true, some, arith, Ratio, IsRatio, max_ratio,
}
use affiliate_platform.Prelude.Fraction.{le_trans_ratio}
use affiliate_platform.Metrics.{pct_diff, distance}
use affiliate_platform.Classifier.{at_most, exceeds, discrepancy, diff_pct}

-- A claim is above a platform value by at least t hundredths of that value.
abbrev pub Overclaims : ℕ → ℕ → ℕ → Type 0
Overclaims t claimed value = (value < claimed) × (t * value ≤ 100 * (claimed - value))

-- A claim is within t hundredths of a platform value, on either side.
abbrev pub Within : ℕ → ℕ → ℕ → Type 0
Within t claimed value = 100 * distance claimed value ≤ t * value

pub pct_diff-IsRatio : (claimed value : ℕ) → IsRatio (pct_diff claimed value)
unfolding pct_diff
pct_diff-IsRatio claimed value = ground arith

pub at_most_iff :
    (t claimed value : ℕ)
    → t < 100
    → (at_most (pct_diff claimed value) t ≡ true) ↔ Within t claimed value
unfolding pct_diff at_most
at_most_iff t claimed value h = (λ e. ground arith, λ w. ground arith)

pub exceeds_iff :
    (t claimed value : ℕ)
    → t ≤ 100
    → (exceeds (discrepancy claimed (some value)) (diff_pct claimed (some value)) t ≡ true)
      ↔ Overclaims t claimed value
unfolding pct_diff exceeds
exceeds_iff t claimed value h = (λ e. ground arith, λ w. ground arith)

pub at_most_max :
    (a b : Ratio) (t : ℕ)
    → IsRatio a
    → IsRatio b
    → (at_most (max_ratio a b) t ≡ true) ↔ ((at_most a t ≡ true) × (at_most b t ≡ true))
unfolding at_most
at_most_max a b t ha hb =
    let limit : Ratio = record { num = t; den = 100 } in
    (
      λ e. ground (arith, le_trans_ratio a b limit hb, le_trans_ratio b a limit ha),
      λ w. ground arith,
    )
