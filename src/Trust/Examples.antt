-- ===== src/Trust/Examples.antt =====
-- Trust scores and priorities at work on small inputs.
use affiliate_platform.Prelude.{◌≡◌, refl, pos, negsuc, ◌+ℤ◌, ◌-ℤ◌}
use affiliate_platform.Trust.{overclaim, apply_trust_event}

-- An overclaim takes ten hundredths, less where the score would pass 0.
overclaims :
    (apply_trust_event (pos 50) overclaim ≡ (pos 40, negsuc 9))
    × (apply_trust_event (pos 4) overclaim ≡ (pos 0, negsuc 3))
unfolding apply_trust_event ◌+ℤ◌ ◌-ℤ◌
overclaims = (refl, refl)
