-- ===== src/Task/Tests.antt =====
-- A task whose warning is due, and one that starts and closes.
use codex_must_work.Prelude.{◌≤◌, ◌≡◌, refl, ◌⊎◌, true, false, none, some, ok, err, String, arith}
use codex_must_work.Manager.{Values}
use codex_must_work.Manager.Ownership.{enabled_values}
use codex_must_work.Manager.Outcomes.{interrupted}
use codex_must_work.Manager.Engine.{Server, initialize as initialize_engine}
use codex_must_work.Task.{
  DaemonTask, warning, restart, next_deadline, advance_deadline, initialize, close,
}
use codex_must_work.Task.Lease.{lease_released_once}

abbrev task : DaemonTask
task = record {
  pid = 7;
  managed = true;
  warning_seconds = 10;
  restart_seconds = 25;
  silence_started = 100;
  deadline_kind = warning;
  initialized = false;
  closed = false;
  lease = none;
}

then_restart :
    (next_deadline (advance_deadline (next_deadline task) 111 task).1)
    ≡ record { at = 125; kind = restart }
unfolding advance_deadline
then_restart = refl

due : (next_deadline task).at ≤ 111
unfolding next_deadline
due = omega arith

abbrev server : Server
server = record {
  pending_server_request = none;
  active_turn = none;
  turn_outcome = λ turn. none;
  start = ok tt;
  resume_thread = ok tt;
  start_turn = ok none;
  wait_turn_started = true;
  wait_turn_completed = true;
  monotonic = 7;
  now = 100;
  interrupting = record {
    claim_holds = true;
    claimed_at = 80;
    pause_for_interrupt = ok tt;
    still_holds = true;
    active_turn = none;
    turn_completed = false;
    wait_turn_completed = true;
    turn_outcome = some interrupted;
    finished_at = 90;
  };
}

abbrev file : Values
unfolding enabled_values
file = enabled_values "s" true false

-- The app server starts the engine, and the first close cannot write the file.
lease_released_once_example :
    let engine = initialize_engine server 7 file in
    let started = initialize server (some 3) task file in
    let first = close (err "state_unavailable") started.task file in
    let second = close (ok tt) first.task file in
    (((kept : Values) × (engine ≡ ok kept)
        × (started.result ≡ ok tt)
        × (started.released ≡ none)
        × (first.released ≡ some 3))
      ⊎ ((reason : String) × (engine ≡ err reason)
          × (started.result ≡ err reason)
          × (started.released ≡ some 3)
          × (first.released ≡ none)))
    × (second.released ≡ none)
lease_released_once_example =
    lease_released_once server 3 task (err "state_unavailable") (ok tt) file file file refl refl
      refl refl
