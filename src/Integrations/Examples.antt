-- ===== src/Integrations/Examples.antt =====
-- Answers of the mock integrations.
use affiliate_platform.Prelude.{
  List, true, false, ◌∙◌, sym, ◌≡◌, map, refl, none, some, [], ◌∷◌, codes, arith,
}
use mathlib.Core.Path.{subst}
use affiliate_platform.Integrations.{
  lower, Option, Integration, x, integration_of, fetch_post_metrics,
}
use affiliate_platform.Integrations.Draws.{Drawn}
use affiliate_platform.Integrations.Conforms.{InRange, FetchMeans, fetch_post_metrics-FetchMeans}

-- Every factor is 5/1000.
abbrev drawn : Drawn
drawn = record {
  fails = false;
  base = 4000;
  factor = λ k. record { num = 5; den = 1000 };
  whole = λ k. 300;
  coin = true;
}

abbrev list_of {ℓ} : {A : Type ℓ} → Option A → List A
list_of none = []
list_of (some a) = a ∷ []

some_inj : {A : Type 0} {a b : A} → some a ≡ some b → a ≡ b
some_inj e = cc

x_metrics :
    map (λ p. p.clicks) (list_of (fetch_post_metrics (codes "Twitter") (codes "u") drawn)) ≡ 40 ∷ []
unfolding fetch_post_metrics
x_metrics = refl

unsupported : fetch_post_metrics (codes "facebook") (codes "u") drawn ≡ none
unfolding fetch_post_metrics
unsupported = refl

-- The name stands for the integration of X, whose draws are in range.
twitter : integration_of (lower (codes "Twitter")) ≡ some x
unfolding integration_of
twitter = refl

in_range : (i : Integration) → integration_of (lower (codes "Twitter")) ≡ some i → InRange i drawn
in_range i e = subst (λ j. InRange j drawn) (some_inj (sym twitter ∙ e)) (omega arith)

fetch_post_metrics-FetchMeans_example :
    FetchMeans
      (codes "u")
      drawn
      (integration_of (lower (codes "Twitter")))
      (fetch_post_metrics (codes "Twitter") (codes "u") drawn)
fetch_post_metrics-FetchMeans_example =
    fetch_post_metrics-FetchMeans (codes "Twitter") (codes "u") drawn in_range
