-- ===== src/Hooks/Tests.antt =====
-- The hooks of a managed session with one child, and the theorems on them.
use codex_must_work.Prelude.{
  ◌<◌, ◌≡◌, refl, true, false, not, Option, none, some, List, [], ◌∷◌, String, get,
}
use codex_must_work.Monitors.{Monitor, RuntimeValues, find_monitor}
use codex_must_work.Monitors.Views.{IsSameTree}
use codex_must_work.Hooks.{
  HookEvent, user_prompt_submit, subagent_start, subagent_stop, pre_tool_use, permission_request,
  stop, Hook, process, process_all, stop_parent, start_child, any_running, defer_session_shutdown,
}
use codex_must_work.Hooks.Freshness.{same_epoch-IsSameTree}
use codex_must_work.Hooks.Generations.{no_second_life}
use codex_must_work.Hooks.Endings.{deferred_ends, managed_stop}

abbrev hook : HookEvent → Option String → Option String → Hook
hook event turn agent = record {
  payload = record { event = event; turn_id = turn; agent_id = agent };
  same_transcript = true;
  now = 5;
  silence_id = "0";
}

abbrev file : RuntimeValues
file = record {
  enabled = true;
  observe_only = false;
  managed_mode = true;
  manager_ready = true;
  parent = none;
  children = [];
  parent_turn_id = none;
  parent_complete = false;
  managed_turn_id = some "t";
  handoff_requested = false;
  shutdown_requested = false;
  shutdown_interrupt = false;
  restart_request = none;
  restart_claimed = false;
  restart_claimed_at = none;
  completion_event_id = none;
  turn_activity_epoch = 0;
  revision = 0;
}

-- A turn whose child asks for an approval.
abbrev turn : List Hook
turn =
    hook user_prompt_submit (some "t") none
    ∷ hook subagent_start none (some "c")
    ∷ hook permission_request none (some "c")
    ∷ []

abbrev in_turn : RuntimeValues
in_turn = process_all file turn

turn_epoch : in_turn.turn_activity_epoch ≡ 3
unfolding process_all
turn_epoch = refl

-- The approval is asked for again, and a child that is unknown uses a tool.
abbrev idle : List Hook
idle = hook permission_request none (some "c") ∷ hook pre_tool_use none (some "d") ∷ []

unmoved : (process_all in_turn idle).turn_activity_epoch ≡ in_turn.turn_activity_epoch
unfolding process_all
unmoved = refl

same_epoch-IsSameTree_example : IsSameTree in_turn (process_all in_turn idle)
same_epoch-IsSameTree_example = same_epoch-IsSameTree in_turn idle unmoved

abbrev ended_child : RuntimeValues
ended_child = process in_turn (hook subagent_stop none (some "c"))

abbrev started_again : List Hook
started_again = hook subagent_start none (some "c") ∷ []

abbrev with_child : Monitor
with_child = record {
  terminal = true;
  generation = 1;
  last_tool_result_at = none;
  silence_started_at = some 5;
  open_tool_count = 0;
  waiting_for_approval = true;
  waiting_for_user = false;
  silence_id = "0";
  progress_epoch = 0;
}

abbrev with_new_child : Monitor
with_new_child = record with_child {
  terminal = false;
  generation = 2;
  waiting_for_approval = false;
}

child_ended : find_monitor ended_child (some "c") ≡ some with_child
unfolding process_all find_monitor get
child_ended = refl

child_again : find_monitor (process_all ended_child started_again) (some "c") ≡ some with_new_child
unfolding process_all find_monitor get
child_again = refl

no_second_life_example : 1 < 2
no_second_life_example =
    no_second_life ended_child started_again (some "c") with_child with_new_child child_ended
      child_again refl refl

deferral : (defer_session_shutdown false in_turn).0 ≡ true
unfolding process_all defer_session_shutdown
deferral = refl

deferred_ends_example :
    ((process_all
        (defer_session_shutdown false in_turn).1
        (hook stop none none ∷ started_again)).handoff_requested
      ≡ false)
    × ((process_all
          (defer_session_shutdown false in_turn).1
          (hook stop none none ∷ started_again)).shutdown_requested
        ≡ true)
deferred_ends_example = deferred_ends false in_turn (hook stop none none ∷ started_again) deferral

managed : in_turn.managed_mode ≡ true
unfolding process_all
managed = refl

managed_stop_example :
    ((stop_parent in_turn).0 ≡ false)
    × (any_running (stop_parent in_turn).1 ≡ false)
    × ((stop_parent in_turn).1.handoff_requested ≡ not in_turn.shutdown_requested)
    × ((start_child (some "d") 6 "1" (stop_parent in_turn).1).0 ≡ true)
managed_stop_example = managed_stop in_turn "d" 6 "1" managed
