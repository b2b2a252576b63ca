-- ===== src/Rollout.antt =====
-- scripts/watcher_source.py: how the watcher reads the complete lines that a session's rollout file
-- has gained. A file is its identity and its bytes. What the JSON reader makes of the bytes of one
-- line, if it is an object, is a parameter.
pub mod Lines
pub mod Reading
pub mod Growth
pub mod Total
mod Tests
use codex_must_work.Prelude.{
  ℕ, suc, zero, ◌+◌, Bool, true, false, not, ◌||◌, Option, none, some, List, [], ◌∷◌, ◌++◌, ltb,
  ◌==◌, length, if◌then◌else◌, Result, ok, err, ◌>>=◌,
}

pub record RolloutFile : Type 0 where
  pub device : ℕ
  pub file_id : ℕ
  pub content : List ℕ

pub record RolloutCursor : Type 0 where
  pub device : ℕ
  pub file_id : ℕ
  pub offset : ℕ

-- How many bytes a line may have, how many those of a batch, and how many lines are read at once.
pub record Limits : Type 0 where
  pub line_bytes : ℕ
  pub batch_bytes : ℕ
  pub batch_records : ℕ

unfoldable pub limits : Limits
limits = record { line_bytes = 8388608; batch_bytes = 8388608; batch_records = 512 }

abbrev pub newline : ℕ
newline = 10

-- `handle.readline(limit)`: the bytes up to the next newline and with it, at most so many; and those
-- that are left.
unfoldable pub readline : ℕ → List ℕ → List ℕ × List ℕ
readline zero bytes = ([], bytes)
readline (suc limit) [] = ([], [])
readline (suc limit) (b ∷ bytes) =
    let rest = readline limit bytes in
    if b == newline then (b ∷ [], bytes) else (b ∷ rest.0, rest.1)

-- `line.endswith(b"\n")`
unfoldable pub ends_with_newline : List ℕ → Bool
ends_with_newline [] = false
ends_with_newline (b ∷ []) = b == newline
ends_with_newline (b ∷ c ∷ bytes) = ends_with_newline (c ∷ bytes)

-- `handle.seek(offset)`
unfoldable pub seek : ℕ → List ℕ → List ℕ
seek zero bytes = bytes
seek (suc offset) [] = []
seek (suc offset) (b ∷ bytes) = seek offset bytes

-- `initial_cursor`: the end of the file.
unfoldable pub initial_cursor : RolloutFile → RolloutCursor
initial_cursor f = record { device = f.device; file_id = f.file_id; offset = length f.content }

module _ {A : Type 0} where
  -- The records of one read in front of those of the reads that follow it.
  abbrev pub and_then : List A → Result (List A × RolloutCursor) → Result (List A × RolloutCursor)
  and_then records (err reason) = err reason
  and_then records (ok (more, final)) = ok (records ++ more, final)

  abbrev pub first_and_then :
      Result (List A × RolloutCursor)
      → (RolloutCursor → Result (List A × RolloutCursor))
      → Result (List A × RolloutCursor)
  first_and_then (err reason) later = err reason
  first_and_then (ok (records, next)) later = and_then records (later next)

module _ {A : Type 0} (decode : List ℕ → Option A) where
  -- The records of a batch, and the offset behind them.
  abbrev pub Batch : Type 0
  Batch = List A × ℕ

  -- A record that was read, in front of those of the rest.
  abbrev pub with_record : A → Result Batch → Result Batch
  with_record a (ok (records, offset)) = ok (a ∷ records, offset)
  with_record a (err reason) = err reason

  -- The loop of `read_new_records` with so many records to go, on the unread bytes, the bytes
  -- of the batch so far and the offset of the next line.
  unfoldable pub read_loop : ℕ → Limits → List ℕ → ℕ → ℕ → Result Batch
  unfolding readline ends_with_newline
  read_loop zero l unread used offset = ok ([], offset)
  read_loop (suc left) l unread used offset =
      let (line, rest) = readline (suc l.line_bytes) unread in
      let more = read_loop left l rest (used + length line) (offset + length line) in
      if length line == 0
      then ok ([], offset)
      else if ltb l.line_bytes (length line)
      then err "line_too_large"
      else if not (ends_with_newline line)
      then ok ([], offset)
      else if ltb l.batch_bytes (used + length line)
      then ok ([], offset)
      else elim (decode line) [ none ↦ err "invalid_json" | some a ↦ with_record a more ]

  -- `read_new_records`, with the cursor that it returns.
  unfoldable pub read_new_records :
      Limits → RolloutFile → RolloutCursor → Result (List A × RolloutCursor)
  unfolding read_loop seek
  read_new_records l f c =
      if not (f.device == c.device)
        || not (f.file_id == c.file_id)
        || ltb (length f.content) c.offset
      then err "rollout_rotated"
      else elim (read_loop l.batch_records l (seek c.offset f.content) 0 c.offset) [
        | err reason ↦ err reason
        | ok (records, offset) ↦ ok (records, record c { offset = offset })
      ]

  -- The batches of a watcher that reads again and again, while the file grows between its reads.
  unfoldable pub read_growing :
      Limits → RolloutFile → RolloutCursor → List (List ℕ) → Result (List A × RolloutCursor)
  unfolding read_new_records
  read_growing l f c [] = ok ([], c)
  read_growing l f c (gained ∷ growths) =
      let grown = record f { content = f.content ++ gained } in
      first_and_then (read_new_records l grown c) (λ next. read_growing l grown next growths)
