-- ===== src/Quality/Examples.antt =====
-- The data quality rules on small inputs.
use affiliate_platform.Prelude.{◌↔◌, ◌≡◌, refl, false, none, some, [], ◌∷◌, All}
use affiliate_platform.Classifier.{Claim}
use affiliate_platform.Quality.{
  clicks, spike, high_ctr, missing_evidence, Severity, evaluate_submission,
}
use affiliate_platform.Quality.Rules.{FlagMeans}
use affiliate_platform.Quality.Complete.{Raises, KeyCause, evaluate_submission-KeyCause}

abbrev earlier : Claim
earlier = record { views = 1000; clicks = 400; conversions = 10 }

abbrev later : Claim
later = record { views = 60000; clicks = 30000; conversions = 10 }

flags_of_later :
    evaluate_submission none later false
    ≡ record { key = high_ctr; severity = Severity.low }
      ∷ record { key = missing_evidence; severity = Severity.medium }
      ∷ []
unfolding evaluate_submission
flags_of_later = refl

evaluate_submission-KeyCause_example :
    (Raises (spike clicks) (evaluate_submission (some earlier) later false)
      ↔ KeyCause (some earlier) later false (spike clicks))
    × All (FlagMeans (some earlier) later false) (evaluate_submission (some earlier) later false)
evaluate_submission-KeyCause_example =
    evaluate_submission-KeyCause (some earlier) later false (spike clicks)
