-- ===== src/Fetcher/Adapters.antt =====
-- Fetches whose adapter module has no function to call
-- (affiliate-reconciliation-backend/app/services/platform_fetcher.py).
use affiliate_platform.Prelude.{ap, ◌+◌, inr, ◌∙◌, inl, ℕ, ◌≡◌, refl}
use affiliate_platform.Fetcher.{
  failed, gave_up, data_of, none, Fetched, Breakers, Bool, String, Call, fetch, call_adapter,
  without_function,
}
use affiliate_platform.Fetcher.Attempts.{fetch_outcome, EndMeans}

-- An outcome whose last call failed has no metrics.
EndMeans-none :
    (c : Call) (platform : String) (exhausted : Bool) (out : Fetched)
    → c ≡ call_adapter platform without_function
    → EndMeans c exhausted out
    → out.platform_metrics ≡ none
unfolding call_adapter
EndMeans-none (data_of r) platform exhausted out e m = absurd (cc)
EndMeans-none (failed code message) platform exhausted out e m = m.0

-- For a platform whose module has no `fetch_post_metrics`, no fetch ever has metrics, whatever the
-- state of the breakers and the number of attempts.
pub fetch-call_adapter :
    (calls : ℕ → Call) (clock : ℕ → ℕ) (platform : String) (further : ℕ) (bs : Breakers)
    → ((n : ℕ) → calls n ≡ call_adapter platform without_function)
    → (fetch calls clock platform further bs).1.platform_metrics ≡ none
unfolding gave_up
fetch-call_adapter calls clock platform further bs h =
    elim (fetch_outcome calls clock platform further bs) [
      | inl (e, out) ↦ ap (λ o. o.platform_metrics) out ∙ refl
      | inr (e, (k, le, n, retried, ended)) ↦ EndMeans-none _ platform _ _ (h (0 + k + 1)) ended
    ]
