-- ===== src/Events/Tests.antt =====
-- The theorems on events at concrete inputs.
use codex_must_work.Prelude.{
  ◌≡◌, ◌≢◌, refl, String, Bool, true, false, some, none, List, [], ◌∷◌, arith, eq_iff,
}
use codex_must_work.Detector.{record_progress, initial_state}
use codex_must_work.Events.{
  EventKind, session_metadata, turn_completed, item, tool_started, tool_result, ObservedEvent,
  MonitorTarget, TargetEventContext, Watched, apply_target_events, parent_completed,
}

abbrev parent_target : MonitorTarget
parent_target = record { target_id = none; started_at = some 2 }

abbrev child_target : MonitorTarget
child_target = record { target_id = some "kid"; started_at = none }

abbrev context : TargetEventContext
context = record { now = 9; parent_turn_id = some "t1" }

abbrev event : EventKind → Bool → ObservedEvent
event kind terminal = record {
  kind = kind;
  occurred_at = 5;
  turn_id = some "t1";
  item_id = none;
  child_id = none;
  call_id = some "c1";
  terminal = terminal;
  fallback_tool_result = false;
}

abbrev batch : List ObservedEvent
batch =
    record (event item false) { occurred_at = 1 }
    ∷ event tool_started false
    ∷ event session_metadata false
    ∷ event tool_result false
    ∷ event turn_completed true
    ∷ []

abbrev fresh : Watched
fresh = record { open_calls = []; state = initial_state 3 }

batch_result : (apply_target_events parent_target context batch fresh).0.state.silence_sequence ≡ 3
unfolding apply_target_events initial_state record_progress
batch_result = refl

batch_completes : parent_completed (some "t1") batch ≡ true
unfolding parent_completed
batch_completes = refl

c1-ne-empty : ◌≢◌ {A = String} "c1" ""
c1-ne-empty = ground (arith, eq_iff "c1" "")
