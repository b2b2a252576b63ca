-- ===== src/Diagnostics/Tests.antt =====
-- A small log whose third event makes room for itself, and one that is asked for twice.
use codex_must_work.Prelude.{ℕ, ◌≡◌, refl, String, none, some, List, [], ◌∷◌, length}
use codex_must_work.Diagnostics.{
  DiagnosticEvent, watcher_completed, completed, append_all, empty_log,
}
use codex_must_work.Diagnostics.Retained.{IsRetained, append_all-IsRetained}

abbrev event : String → DiagnosticEvent
event id = record {
  occurred_at = 0;
  code = watcher_completed;
  state = completed;
  session_hash = "s";
  child_hash = none;
  elapsed_ms = none;
  event_id = some id;
}

abbrev ten_bytes : DiagnosticEvent → ℕ
ten_bytes e = 10

abbrev events : List DiagnosticEvent
events = event "a" ∷ event "b" ∷ event "a" ∷ event "c" ∷ []

two_files : length (append_all ten_bytes 20 events empty_log).1.backups ≡ 1
unfolding append_all
two_files = refl

three_written : length (append_all ten_bytes 20 events empty_log).0 ≡ 3
unfolding append_all
three_written = refl

append_all-IsRetained_example :
    IsRetained ten_bytes 20
      (append_all ten_bytes 20 events empty_log).0
      (append_all ten_bytes 20 events empty_log).1
append_all-IsRetained_example = append_all-IsRetained ten_bytes 20 events
