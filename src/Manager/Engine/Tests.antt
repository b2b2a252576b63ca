-- ===== src/Manager/Engine/Tests.antt =====
-- A waiting session that gets its turn, and a stalled turn that is replaced.
use codex_must_work.Prelude.{
  eq_iff, inr, ◌≢◌, ◌≡◌, refl, String, true, false, some, none, ok, [], ◌∷◌, ◌++◌, eq_iff, arith,
}
use codex_must_work.Manager.{Values, RestartRequest}
use codex_must_work.Manager.Ownership.{enabled_values}
use codex_must_work.Manager.Outcomes.{interrupted}
use codex_must_work.Manager.Interrupt.{Answers}
use codex_must_work.Manager.Engine.{Server, tick, new_engine, starts_turn}
use codex_must_work.Manager.Engine.Handoff.{IsWaiting, IsRecorded, prepares, handoff-IsRecorded}
use codex_must_work.Manager.Engine.Interrupting.{IsStalled}
use codex_must_work.Manager.Engine.Restart.{IsRunning, IsAccepting}

abbrev request : RestartRequest
request = record {
  request_id = "r1";
  turn_id = "t1";
  target_id = none;
  target_generation = 1;
  progress_epoch = 3;
  turn_activity_epoch = 2;
}

-- A file that asks for a handoff, and one whose owned turn is to be restarted.
waiting : Values
unfolding enabled_values
waiting = record (enabled_values "s" true false) { handoff_requested = true }

stalled : Values
unfolding enabled_values
stalled = record (enabled_values "s" true false) {
  managed_turn_id = some "t1";
  restart_request = some request;
}

abbrev answers : Answers
answers = record {
  claim_holds = true;
  claimed_at = 80;
  pause_for_interrupt = ok tt;
  still_holds = true;
  active_turn = some "t1";
  turn_completed = false;
  wait_turn_completed = true;
  turn_outcome = some interrupted;
  finished_at = 90;
}

abbrev idle_server : Server
idle_server = record {
  pending_server_request = none;
  active_turn = none;
  turn_outcome = λ turn. none;
  start = ok tt;
  resume_thread = ok tt;
  start_turn = ok (some "t2");
  wait_turn_started = true;
  wait_turn_completed = true;
  monotonic = 7;
  now = 100;
  interrupting = answers;
}

abbrev running_server : Server
running_server = record idle_server { active_turn = some "t1" }

t2_named : ◌≢◌ {A = String} "t2" ""
t2_named = ground (arith, eq_iff "t2" "")

waiting-IsWaiting : IsWaiting waiting
unfolding waiting enabled_values
waiting-IsWaiting = record {
  enabled = refl;
  managed = refl;
  requested = refl;
  unowned = refl;
  unpending = refl;
  unrequested = refl;
  no_goal = refl;
  no_shutdown = refl;
}

handoff-IsRecorded_example :
    (w : Values) × ((tick idle_server new_engine false waiting).keep_running ≡ ok true)
    × ((tick idle_server new_engine false waiting).file ≡ some w)
    × ((tick idle_server new_engine false waiting).requests
        ≡ prepares new_engine ++ (starts_turn false ∷ []))
    × IsRecorded idle_server "t2" w
handoff-IsRecorded_example =
    handoff-IsRecorded idle_server new_engine false "t2" waiting waiting-IsWaiting refl refl
      (inr refl) refl t2_named

stalled-IsStalled : IsStalled "t1" request stalled
unfolding stalled enabled_values
stalled-IsStalled = record {
  enabled = refl;
  managed = refl;
  owned = refl;
  unpending = refl;
  requested = refl;
  names = refl;
  unclaimed = refl;
  no_goal = refl;
  no_shutdown = refl;
}

running_server-IsRunning : IsRunning "t1" running_server
running_server-IsRunning = record {
  quiet = refl;
  active = refl;
  unfinished = refl;
  interruptible = record {
    claim_holds = refl;
    paused = refl;
    still_holds = refl;
    active = refl;
    completed = refl;
    outcome = refl;
    later = omega arith;
    soon = omega arith;
  };
}

idle_server-IsAccepting : IsAccepting new_engine "t2" idle_server
idle_server-IsAccepting = record {
  quiet = refl;
  idle = refl;
  loads = inr refl;
  accepts = refl;
  named = t2_named;
}
