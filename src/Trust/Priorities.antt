-- ===== src/Trust/Priorities.antt =====
-- How a trust score and suspicion flags choose a job's place in the queue
-- (affiliate-reconciliation-backend/app/utils/priority.py).
use affiliate_platform.Config.{priorities}
use affiliate_platform.Prelude.{
  ◌⊎◌, ℕ, ◌≤◌, String, ◌≡◌, refl, Bool, true, false, some, arith, lookup, ℤ, pos, ◌≤ℤ◌,
}
use affiliate_platform.Trust.{Label, high, normal, low, compute_priority}

-- The text of a label, which is a key of QUEUE_SETTINGS["priorities"].
unfoldable pub label_text : Label → String
label_text high = "high"
label_text normal = "normal"
label_text low = "low"

-- The number of a label in the queue: the lower, the earlier.
abbrev pub rank : Label → ℕ
rank high = 0
rank normal = 5
rank low = 10

-- Every label is a priority that the queue knows, with the number that it is served by.
pub lookup-label_text : (l : Label) → lookup (label_text l) priorities ≡ some (rank l)
unfolding label_text lookup
lookup-label_text high = refl
lookup-label_text normal = refl
lookup-label_text low = refl

-- What a label says of the score and the flags: first with flags or below 0.50, last without flags
-- from 0.75 on, and in the middle otherwise.
abbrev pub LabelMeans : Label → ℤ → Bool → Type 0
LabelMeans high score flags = (flags ≡ true) ⊎ (score ≤ℤ pos 49)
LabelMeans normal score flags = (flags ≡ false) × (pos 50 ≤ℤ score) × (score ≤ℤ pos 74)
LabelMeans low score flags = (flags ≡ false) × (pos 75 ≤ℤ score)

-- The label is high exactly with flags or a score below 0.50, low exactly without flags from 0.75
-- on, and normal exactly without flags in between.
pub compute_priority_meaning :
    (score : ℤ) (flags : Bool) → LabelMeans (compute_priority score flags) score flags
unfolding compute_priority
compute_priority_meaning score true = ground arith
compute_priority_meaning score false = ground arith

-- A user with less trust, or with flags where the other has none, is never served later.
pub compute_priority_mono :
    (s t : ℤ) (f g : Bool)
    → s ≤ℤ t
    → (g ≡ true → f ≡ true)
    → rank (compute_priority s f) ≤ rank (compute_priority t g)
unfolding compute_priority
compute_priority_mono s t f g h k = ground arith
