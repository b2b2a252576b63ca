-- ===== src/Rollout/Tests.antt =====
-- A rollout of three lines, the last of which is written in two parts; the record of a line is its
-- length.
use codex_must_work.Prelude.{
  ℕ, ◌≤◌, ◌≡◌, refl, Option, some, List, [], ◌∷◌, ◌++◌, length, arith, ok,
}
use codex_must_work.Rollout.{
  Limits, RolloutFile, RolloutCursor, seek, read_new_records, read_growing,
}
use codex_must_work.Rollout.Lines.{lines}
use codex_must_work.Rollout.Reading.{IsRead, decode_all}
use codex_must_work.Rollout.Growth.{gained_all, read_growing-IsRead}
use codex_must_work.Rollout.Total.{reads_all}

abbrev size_of : List ℕ → Option ℕ
size_of line = some (length line)

abbrev small : Limits
small = record { line_bytes = 8; batch_bytes = 8; batch_records = 2 }

abbrev log : RolloutFile
log = record { device = 1; file_id = 2; content = 7 ∷ 10 ∷ [] }

abbrev start : RolloutCursor
start = record { device = 1; file_id = 2; offset = 0 }

abbrev growths : List (List ℕ)
growths = (5 ∷ 5 ∷ 10 ∷ 6 ∷ []) ∷ (6 ∷ 10 ∷ 4 ∷ []) ∷ []

abbrev final : RolloutCursor
final = record { device = 1; file_id = 2; offset = 8 }

growing : read_growing size_of small log start growths ≡ ok (2 ∷ 3 ∷ 3 ∷ [], final)
unfolding read_growing
growing = refl

read_growing-IsRead_example :
    IsRead size_of (seek 0 (log.content ++ gained_all growths)) 0 (2 ∷ 3 ∷ 3 ∷ []) 8
read_growing-IsRead_example =
    read_growing-IsRead size_of small log start final growths (2 ∷ 3 ∷ 3 ∷ []) (omega arith) growing

whole : decode_all size_of (lines (seek 0 log.content)) ≡ some (2 ∷ [])
unfolding lines seek
whole = refl

few : length (lines (seek 0 log.content)) ≤ 2
unfolding lines seek
few = omega arith

short : length (seek 0 log.content) ≤ 8
unfolding seek
short = omega arith

reads_all_example :
    (to : ℕ) × (read_new_records size_of small log start
      ≡ ok (2 ∷ [], record start { offset = to }))
reads_all_example =
    reads_all size_of small log start (2 ∷ []) refl refl (omega arith) whole few short short
