-- ===== src/Diagnostics.antt =====
-- scripts/monitor_diagnostics.py: the bounded log of diagnostics, its current file and two backups,
-- each a list of complete lines, oldest first. How many bytes an event is encoded to is a parameter;
-- the checks of its hashes and of the files' paths are not modelled.
pub mod Identities
pub mod Retained
mod Tests
use codex_must_work.Prelude.{
  ℕ, ◌+◌, String, Bool, true, false, ◌||◌, Option, none, some, List, [], ◌∷◌, ◌++◌, ltb, opt_eq,
  any, ◌==◌, is_none, not, ◌&&◌, if◌then◌else◌, Result, ok, err,
}

pub data DiagnosticCode : Type 0 where
  watcher_started heartbeat_active watcher_completed observable_progress_silence bottleneck_critical
        progress_recovered discord_notification_failed rollout_corrupt rollout_rotated
        state_unavailable :
      DiagnosticCode

pub data MonitorState : Type 0 where
  active paused completed failed_closed : MonitorState

pub record DiagnosticEvent : Type 0 where
  pub occurred_at : ℕ
  pub code : DiagnosticCode
  pub state : MonitorState
  pub session_hash : String
  pub child_hash : Option String
  pub elapsed_ms : Option ℕ
  pub event_id : Option String

-- The backups come newest first.
pub record Log : Type 0 where
  pub current : List DiagnosticEvent
  pub backups : List (List DiagnosticEvent)

abbrev pub empty_log : Log
empty_log = record { current = []; backups = [] }

abbrev pub max_log_bytes : ℕ
max_log_bytes = 1048576

-- An event with this identity.
abbrev pub has_id : String → DiagnosticEvent → Bool
has_id id e = opt_eq e.event_id (some id)

-- The second backup is the last.
abbrev pub two_of {ℓ} : {A : Type ℓ} → List A → List A
two_of [] = []
two_of (a ∷ []) = a ∷ []
two_of (a ∷ b ∷ more) = a ∷ b ∷ []

-- `_rotate`: the current file becomes the first backup, and the oldest backup is removed.
unfoldable pub rotate : Log → Log
rotate log = record { current = []; backups = two_of (log.current ∷ log.backups) }

module _ (encoded_bytes : DiagnosticEvent → ℕ) where
  -- The size of a file.
  unfoldable pub file_bytes : List DiagnosticEvent → ℕ
  file_bytes [] = 0
  file_bytes (e ∷ file) = encoded_bytes e + file_bytes file

  -- `_complete_bytes`: the lines of a file, which must not be longer than the limit.
  abbrev pub complete : ℕ → List DiagnosticEvent → Result (List DiagnosticEvent)
  complete limit file = if ltb limit (file_bytes file) then err "log_size_invalid" else ok file

  -- The file has the identity, or else the rest of the search is gone on with.
  abbrev pub searched : String → Result (List DiagnosticEvent) → Result Bool → Result Bool
  searched id (err reason) rest = err reason
  searched id (ok file) rest = if any (has_id id) file then ok true else rest

  -- `any` over the files.
  unfoldable pub search_files : String → List (List DiagnosticEvent) → Result Bool
  unfolding file_bytes
  search_files id [] = ok false
  search_files id (file ∷ files) = searched id (complete max_log_bytes file) (search_files id files)

  -- `_contains_event_id`
  unfoldable pub contains_event_id : Log → String → Result Bool
  unfolding search_files
  contains_event_id log id = search_files id (log.current ∷ log.backups)

  -- The line is written behind those that are there.
  abbrev pub write : DiagnosticEvent → Log → Log
  write e log = record log { current = log.current ++ (e ∷ []) }

  -- `event.event_id is not None and _contains_event_id(...)`
  abbrev pub is_known : DiagnosticEvent → Log → Result Bool
  is_known e log = elim e.event_id [ none ↦ ok false | some id ↦ contains_event_id log id ]

  -- What follows the reading of the current file.
  abbrev pub append_to :
      ℕ → DiagnosticEvent → Log → Result (List DiagnosticEvent) → Result (Bool × Log)
  append_to max_bytes e log (err reason) = err reason
  append_to max_bytes e log (ok existing) =
      if ltb max_bytes (file_bytes existing + encoded_bytes e)
      then ok (true, write e (rotate log))
      else ok (true, write e log)

  -- What follows the search for the identity.
  abbrev pub append_unless : Result Bool → ℕ → DiagnosticEvent → Log → Result (Bool × Log)
  append_unless (err reason) max_bytes e log = err reason
  append_unless (ok true) max_bytes e log = ok (false, log)
  append_unless (ok false) max_bytes e log =
      append_to max_bytes e log (complete max_bytes log.current)

  -- `append_diagnostic_once`, with whether the event was newly written.
  unfoldable pub append_diagnostic_once : ℕ → DiagnosticEvent → Log → Result (Bool × Log)
  unfolding file_bytes rotate contains_event_id
  append_diagnostic_once max_bytes e log =
      let found = append_unless (is_known e log) max_bytes e log in
      if max_bytes == 0
      then err "max_bytes_invalid"
      else if ltb max_bytes (encoded_bytes e)
      then err "record_exceeds_limit"
      else found

  -- The log after a call: what it was if the call raised.
  abbrev pub log_after : Log → Result (Bool × Log) → Log
  log_after log (err reason) = log
  log_after log (ok (written, next)) = next

  abbrev pub was_written : Result (Bool × Log) → Bool
  was_written (err reason) = false
  was_written (ok (written, next)) = written

  -- The events that a run of calls wrote, and the log that it leaves.
  unfoldable pub append_all : ℕ → List DiagnosticEvent → Log → List DiagnosticEvent × Log
  unfolding append_diagnostic_once
  append_all max_bytes [] log = ([], log)
  append_all max_bytes (e ∷ events) log =
      let result = append_diagnostic_once max_bytes e log in
      let (written, final) = append_all max_bytes events (log_after log result) in
      (if was_written result then e ∷ written else written, final)
