-- ===== src/Calibration.antt =====
-- scripts/calibration.py: the thresholds recommended for the gaps between progress, with the check of
-- thresholds of scripts/durations.py. A gap is a number of microseconds, where 0 stands for every gap
-- that is not positive; the rounding of floats is left out.
pub mod Sorting
pub mod Coverage
mod Tests
use codex_must_work.Prelude.{
  ℕ, ◌+◌, ◌-◌, ◌*◌, ◌/◌, max, Bool, true, false, Option, none, some, List, [], ◌∷◌, length, any,
  get_elem?, ltb, leb, ◌==◌, ◌||◌, if◌then◌else◌, Result, ok, err, String,
}

abbrev pub min_sample_count : ℕ
min_sample_count = 20

pub data CalibrationOutcome : Type 0 where
  -- the count of samples, and the warning and restart thresholds in milliseconds
  recommendation : ℕ → ℕ → ℕ → CalibrationOutcome
  insufficient : ℕ → CalibrationOutcome
  unavailable : String → CalibrationOutcome

-- `sorted`, as an insertion sort.
abbrev pub insert : ℕ → List ℕ → List ℕ
insert x [] = x ∷ []
insert x (y ∷ ys) = let rest = insert x ys in if leb x y then x ∷ (y ∷ ys) else y ∷ rest

unfoldable pub sort : List ℕ → List ℕ
sort [] = []
sort (x ∷ xs) = insert x (sort xs)

-- `_nearest_rank`, for a percentile in hundredths: the index is the rank less one, at least 0.
abbrev pub rank : ℕ → ℕ → ℕ
rank percent count = (percent * count + 99) / 100 - 1

unfoldable pub nearest_rank : List ℕ → ℕ → Option ℕ
nearest_rank values percent = get_elem? values (rank percent (length values))

-- `_rounded_minute`, from microseconds to seconds.
unfoldable pub rounded_minute : ℕ → ℕ
rounded_minute gap = max 60 ((gap + 59999999) / 60000000 * 60)

-- The recommendation for the two ranks; without them the source raises an `IndexError`.
unfoldable pub recommend : ℕ → Option ℕ → Option ℕ → CalibrationOutcome
unfolding rounded_minute
recommend count (some high) (some top) =
    let warning_seconds = rounded_minute high in
    let restart_seconds = rounded_minute (max top (warning_seconds * 2 * 1000000)) in
    recommendation count (warning_seconds * 1000) (restart_seconds * 1000)
recommend count none top = unavailable "index_out_of_range"
recommend count (some high) none = unavailable "index_out_of_range"

unfoldable pub recommend_thresholds : List ℕ → CalibrationOutcome
unfolding sort nearest_rank recommend
recommend_thresholds gaps =
    let values = sort gaps in
    if ltb (length gaps) min_sample_count
    then insufficient (length gaps)
    else if any (λ value. value == 0) values
    then unavailable "nonpositive_progress_gap"
    else recommend (length gaps) (nearest_rank values 95) (nearest_rank values 99)

-- `validate_thresholds` of scripts/durations.py.
unfoldable pub validate_thresholds : ℕ → ℕ → Result (ℕ × ℕ)
validate_thresholds warning_after_ms restart_after_ms =
    if warning_after_ms == 0 || restart_after_ms == 0
    then err "thresholds must be positive"
    else if leb restart_after_ms warning_after_ms
    then err "restart threshold must be later than warning threshold"
    else ok (warning_after_ms, restart_after_ms)
