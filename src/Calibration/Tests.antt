-- ===== src/Calibration/Tests.antt =====
-- Twenty gaps between progress, and their recommendation.
use codex_must_work.Prelude.{◌≡◌, ◌≤◌, ◌*◌, ℕ, refl, List, [], ◌∷◌, ok}
use codex_must_work.Calibration.{
  recommendation, insufficient, recommend_thresholds, validate_thresholds,
}
use codex_must_work.Calibration.Coverage.{at_most, recommendation_covers}

abbrev gaps : List ℕ
gaps =
    90000000 ∷ 5000000 ∷ 5000000 ∷ 5000000 ∷ 5000000 ∷ 5000000 ∷ 5000000 ∷ 5000000 ∷ 5000000
    ∷ 5000000 ∷ 400000000 ∷ 5000000 ∷ 5000000 ∷ 5000000 ∷ 5000000 ∷ 5000000 ∷ 5000000 ∷ 5000000
    ∷ 5000000 ∷ 5000000 ∷ []

gaps_recommend : recommend_thresholds gaps ≡ recommendation 20 120000 420000
unfolding recommend_thresholds
gaps_recommend = refl

few : recommend_thresholds (1 ∷ []) ≡ insufficient 1
unfolding recommend_thresholds
few = refl

recommendation_covers_example :
    (95 * 20 ≤ 100 * at_most (120000 * 1000) gaps)
    × (99 * 20 ≤ 100 * at_most (420000 * 1000) gaps)
    × (60000 ≤ 120000)
    × (120000 * 2 ≤ 420000)
    × (validate_thresholds 120000 420000 ≡ ok (120000, 420000))
recommendation_covers_example = recommendation_covers gaps 20 120000 420000 gaps_recommend
