-- ===== src/Classifier/Examples.antt =====
-- The classifier at work on small inputs.
use affiliate_platform.Config.{hour}
use affiliate_platform.Prelude.{◌*◌, ◌≡◌, refl, ◌≢◌, none, some, [], ◌∷◌, arith, round_half_even}
use affiliate_platform.Enums.{affiliate_overclaimed, DiscrepancyLevel}
use affiliate_platform.Trust.{overclaim}
use affiliate_platform.Metrics.{apply_growth_allowance, pct_diff}
use affiliate_platform.Classifier.{Claim, Reported, classify, determine_status, at_most}
use affiliate_platform.Classifier.Verdicts.{
  full, adjusted, StatusMeans, LevelMeans, classify_meaning,
}
use affiliate_platform.Classifier.Growth.{honest_not_overclaimed}

abbrev platform : Claim
platform = record { views = 1000; clicks = 100; conversions = 10 }

abbrev inflated : Claim
inflated = record { views = 1600; clicks = 100; conversions = 10 }

abbrev partial : Reported
partial = record { views = none; clicks = some 100; conversions = some 10 }

classifier : Unit {0}
unfolding classify determine_status at_most apply_growth_allowance round_half_even pct_diff
classifier = tt

overclaimed_now :
    let r = classify inflated (full platform) 0 [] in
    (r.status ≡ affiliate_overclaimed)
    × (r.trust_event ≡ some overclaim)
    × (r.discrepancy_level ≡ some DiscrepancyLevel.critical)
unfolding classifier
overclaimed_now = (refl, refl, refl)

-- Six hours later the adjusted value has grown to what was claimed.
excused_later :
    (classify inflated (full platform) (6 * hour) []).max_discrepancy_pct
    ≡ some (record { num = 60; den = 160 })
unfolding classifier
excused_later = refl

partial_names : (classify inflated partial 0 ("views" ∷ [])).missing_fields ≡ "views" ∷ "views" ∷ []
unfolding classifier
partial_names = refl

classify_meaning_example :
    let q = adjusted hour platform in
    let r = classify inflated (full platform) hour [] in
    StatusMeans r.status inflated q × LevelMeans r.discrepancy_level r.status inflated q
classify_meaning_example = classify_meaning inflated platform hour []

honest_not_overclaimed_example :
    (classify platform (full inflated) hour []).status ≢ affiliate_overclaimed
honest_not_overclaimed_example =
    honest_not_overclaimed platform inflated hour [] (omega arith) (omega arith) (omega arith)
