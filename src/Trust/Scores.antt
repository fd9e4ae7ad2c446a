-- ===== src/Trust/Scores.antt =====
-- Trust scores under any sequence of events
-- (affiliate-reconciliation-backend/app/services/trust_scoring.py).
use affiliate_platform.Prelude.{
  inl, inr, ◌⊎◌, Bool-cases, leb_ℤ, ◌≡◌, List, [], ◌∷◌, arith, ℤ, ◌+ℤ◌, ◌≤ℤ◌, min_ℤ, max_ℤ,
  int_laws,
}
use affiliate_platform.Config.{min_score, max_score}
use affiliate_platform.Trust.{TrustEvent, event_delta, apply_trust_event}

-- A score of the scale, 0 to 100 hundredths.
abbrev pub InScale : ℤ → Type 0
InScale s = (min_score ≤ℤ s) × (s ≤ℤ max_score)

abbrev clamp : ℤ → ℤ
clamp s = max_ℤ min_score (min_ℤ s max_score)

clamp_bounds : (s : ℤ) → InScale (clamp s)
unfolding max_ℤ min_ℤ
clamp_bounds s = ground arith

-- Between two scores of the scale, the clamped value is between them and the raw one.
clamp_between :
    (s t : ℤ)
    → InScale s
    → (s ≤ℤ t → (s ≤ℤ clamp t) × (clamp t ≤ℤ t)) × (t ≤ℤ s → (clamp t ≤ℤ s) × (t ≤ℤ clamp t))
unfolding max_ℤ min_ℤ
clamp_between s t h = ground arith

-- Every event leaves a score of the scale, whatever the score was, and reports by how much it moved
-- it.
pub apply_trust_event_bounds :
    (s : ℤ) (e : TrustEvent)
    → let (s', delta) = apply_trust_event s e in InScale s' × (s +ℤ delta ≡ s')
unfolding apply_trust_event
apply_trust_event_bounds s e = (clamp_bounds (s +ℤ event_delta e), omega int_laws)

-- From a score of the scale every event moves the score in the direction of its delta, and no
-- further than the delta.
pub apply_trust_event_direction :
    (s : ℤ) (e : TrustEvent)
    → InScale s
    → let s' = (apply_trust_event s e).0 in
      ((s ≤ℤ s') × (s' ≤ℤ s +ℤ event_delta e)) ⊎ ((s' ≤ℤ s) × (s +ℤ event_delta e ≤ℤ s'))
unfolding apply_trust_event
apply_trust_event_direction s e h =
    let b = clamp_between s (s +ℤ event_delta e) h in
    elim (Bool-cases (leb_ℤ s (s +ℤ event_delta e))) [
      | inl up ↦ inl (b.0 (ground arith))
      | inr down ↦ inr (b.1 (ground arith))
    ]

-- The score after a sequence of events, each applied to the score that the last one left.
unfoldable pub replay : ℤ → List TrustEvent → ℤ
replay s [] = s
replay s (e ∷ es) = replay (apply_trust_event s e).0 es

-- No history takes a score off the scale.
pub replay-InScale : (s : ℤ) (es : List TrustEvent) → InScale s → InScale (replay s es)
unfolding replay
replay-InScale s [] h = h
replay-InScale s (e ∷ es) h =
    replay-InScale (apply_trust_event s e).0 es (apply_trust_event_bounds s e).0
