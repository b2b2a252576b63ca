-- ===== src/Calibration/Coverage.antt =====
-- What the thresholds that scripts/calibration.py recommends are good for.
use codex_must_work.Prelude.{
  ℕ, ◌*◌, ◌≤◌, ◌<◌, ◌≡◌, max, some, List, [], ◌∷◌, length, count_if, leb, arith, ok, sym,
}
use codex_must_work.Calibration.{
  recommendation, recommend_thresholds, recommend, nearest_rank, rank, rounded_minute,
  validate_thresholds, sort, min_sample_count,
}
use codex_must_work.Calibration.Sorting.{
  count_if-sort, length-sort, sort-IsSorted, rank_counts, get_elem?-found,
}

abbrev pub at_most : ℕ → List ℕ → ℕ
at_most limit gaps = count_if (λ gap. leb gap limit) gaps

at_most-le : (a b : ℕ) (gaps : List ℕ) → a ≤ b → at_most a gaps ≤ at_most b gaps
at_most-le a b [] h = omega arith
at_most-le a b (g ∷ gaps) h = ground (arith, at_most-le a b gaps h)

rounded_minute-covers : (gap : ℕ) → gap ≤ rounded_minute gap * 1000000
unfolding rounded_minute
rounded_minute-covers gap = omega arith

-- A rank within the samples is found, and as many samples as the rank are at most its value.
rank_found :
    (gaps : List ℕ) (percent : ℕ)
    → rank percent (length gaps) < length gaps
    → (v : ℕ) × (nearest_rank (sort gaps) percent ≡ some v)
      × (rank percent (length gaps) < at_most v gaps)
unfolding nearest_rank
rank_found gaps percent h =
    let i = rank percent (length gaps) in
    let inside : i < length (sort gaps) = rw (length-sort gaps) h in
    let (v, e) = get_elem?-found i (sort gaps) inside in
    let below : i < at_most v (sort gaps) = rank_counts i v (sort gaps) (sort-IsSorted gaps) e in
    (v, rw (length-sort gaps) e, rw⁻¹ (count_if-sort (λ gap. leb gap v) gaps) below)

rounded_minute-positive : (gap : ℕ) → 60 ≤ rounded_minute gap
unfolding rounded_minute
rounded_minute-positive gap = omega arith

-- The recommendation for two ranks of samples.
recommended :
    (count high top n w r : ℕ)
    → recommend count (some high) (some top) ≡ recommendation n w r
    → (high ≤ w * 1000) × (top ≤ r * 1000) × (w * 2 ≤ r) × (60000 ≤ w)
unfolding recommend
recommended count high top n w r e =
    let warning_seconds = rounded_minute high in
    let least = max top (warning_seconds * 2 * 1000000) in
    ground
      (arith, rounded_minute-covers high, rounded_minute-positive high, rounded_minute-covers least)

recommends :
    (gaps : List ℕ) (n w r : ℕ)
    → recommend_thresholds gaps ≡ recommendation n w r
    → (min_sample_count ≤ length gaps)
      × (recommend (length gaps) (nearest_rank (sort gaps) 95) (nearest_rank (sort gaps) 99)
          ≡ recommendation n w r)
unfolding recommend_thresholds
recommends gaps n w r e = ground arith

validated : (w r : ℕ) → 60000 ≤ w → w * 2 ≤ r → validate_thresholds w r ≡ ok (w, r)
unfolding validate_thresholds
validated w r minute twice = ground arith

-- Where the gaps lead to a recommendation, at least 95 in a hundred of them are at most the warning
-- threshold and at least 99 in a hundred at most the restart threshold; the warning threshold is at least
-- a minute, the restart threshold at least twice as long, and the check of thresholds takes the pair.
pub recommendation_covers :
    (gaps : List ℕ) (n w r : ℕ)
    → recommend_thresholds gaps ≡ recommendation n w r
    → (95 * length gaps ≤ 100 * at_most (w * 1000) gaps)
      × (99 * length gaps ≤ 100 * at_most (r * 1000) gaps)
      × (60000 ≤ w)
      × (w * 2 ≤ r)
      × (validate_thresholds w r ≡ ok (w, r))
recommendation_covers gaps n w r e =
    let (enough, made) = recommends gaps n w r e in
    let (high, high_found, high_rank) = rank_found gaps 95 (omega arith) in
    let (top, top_found, top_rank) = rank_found gaps 99 (omega arith) in
    let ranked : recommend (length gaps) (some high) (some top) ≡ recommendation n w r =
      rw (sym high_found, sym top_found) made in
    let (covers, covers_top, twice, minute) = recommended (length gaps) high top n w r ranked in
    let most = at_most-le high (w * 1000) gaps covers in
    let most_top = at_most-le top (r * 1000) gaps covers_top in
    (omega arith, omega arith, minute, twice, validated w r minute twice)
