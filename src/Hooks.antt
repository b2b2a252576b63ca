-- ===== src/Hooks.antt =====
-- scripts/hook_state.py: what a hook of Codex writes to the runtime file of its session, with
-- `process_hook` of scripts/hook_event.py around it and the request of
-- scripts/session_shutdown.py. The time and the fresh silence id of an event are arguments; so is
-- whether its transcript, if it names one, is the session's.
pub mod Freshness
pub mod Lives
pub mod Generations
pub mod Endings
mod Tests
use codex_must_work.Prelude.{
  inl, inl, inl, inl, inl, inl, ℕ, ◌+◌, ◌-◌, String, Bool, true, false, not, ◌&&◌, ◌||◌, Option,
  none, some, List, [], ◌∷◌, opt_eq, is_none, any, ltb, if◌then◌else◌, Dict,
}
use codex_must_work.Monitors.{
  Monitor, RuntimeValues, Target, find_monitor, save_monitor, update_monitor, update_each,
  all_targets, terminated, progressed, advance_turn_activity_epoch,
}
use codex_must_work.Monitors.Views.{same_tree}

pub data HookEvent : Type 0 where
  session_start user_prompt_submit subagent_start subagent_stop pre_tool_use post_tool_use
        permission_request stop :
      HookEvent

pub record HookPayload : Type 0 where
  pub event : HookEvent
  pub turn_id : Option String
  pub agent_id : Option String

-- `_new_monitor`
unfoldable pub new_monitor : ℕ → String → ℕ → Monitor
new_monitor now silence_id generation = record {
  terminal = false;
  generation = generation;
  last_tool_result_at = none;
  silence_started_at = some now;
  open_tool_count = 0;
  waiting_for_approval = false;
  waiting_for_user = false;
  silence_id = silence_id;
  progress_epoch = 0;
}

-- `_next_generation`
unfoldable pub next_generation : Option Monitor → ℕ
next_generation none = 1
next_generation (some m) =
    let current = if ltb 0 m.generation then m.generation else 1 in
    if m.terminal then current + 1 else current

-- `_next_parent_generation`
unfoldable pub next_parent_generation : Option Monitor → ℕ
next_parent_generation none = 1
next_parent_generation (some m) = if ltb 0 m.generation then m.generation + 1 else 2

abbrev pub without_waits : Monitor → Monitor
without_waits m = record m { waiting_for_user = false; waiting_for_approval = false }

-- `_clear_waits`
unfoldable pub clear_waits : RuntimeValues → RuntimeValues
unfolding update_each
clear_waits v = update_each (all_targets v) without_waits v

-- `_start_parent`
unfoldable pub start_parent : String → ℕ → String → RuntimeValues → RuntimeValues
unfolding new_monitor next_parent_generation save_monitor
start_parent turn now silence_id v =
    let renewed =
      save_monitor none (new_monitor now silence_id (next_parent_generation v.parent)) v in
    record (if not (opt_eq v.parent_turn_id (some turn)) || is_none v.parent then renewed else v) {
      parent_turn_id = some turn;
      parent_complete = false;
    }

abbrev pub is_running : Option Monitor → Bool
is_running none = false
is_running (some m) = not m.terminal

-- `had_nonterminal`
unfoldable pub any_running : RuntimeValues → Bool
unfolding find_monitor
any_running v = any (λ t. is_running (find_monitor v t)) (all_targets v)

-- `_start_child`, with whether the first watcher must launch.
unfoldable pub start_child : Option String → ℕ → String → RuntimeValues → Bool × RuntimeValues
unfolding any_running next_generation new_monitor save_monitor find_monitor
start_child none now silence_id v = (false, v)
start_child (some id) now silence_id v = (
  not (any_running v),
  record (save_monitor (some id)
      (new_monitor now silence_id (next_generation (find_monitor v (some id)))) v) {
        parent_complete = false;
      },
)

-- What `_tool_started` writes.
abbrev pub with_tool : Monitor → Monitor
with_tool m =
    progressed (record m { open_tool_count = m.open_tool_count + 1; waiting_for_approval = false })

-- What `_tool_finished` writes.
abbrev pub without_tool : ℕ → Monitor → Monitor
without_tool now m = progressed (record m {
  open_tool_count = m.open_tool_count - 1;
  last_tool_result_at = some now;
  waiting_for_approval = false;
})

-- What `_mark_approval_wait` writes.
abbrev pub with_approval_wait : Monitor → Monitor
with_approval_wait m = record m { waiting_for_approval = true }

-- `_stop_parent`
unfoldable pub stop_parent : RuntimeValues → Bool × RuntimeValues
unfolding update_each update_monitor
stop_parent v =
    let stopped = update_each (all_targets v) terminated v in
    if v.managed_mode
    then (
      false,
      record stopped {
        handoff_requested = not stopped.shutdown_requested;
        parent_complete = false;
      },
    )
    else if not v.observe_only
    then (false, v)
    else (true, record (update_monitor none terminated v) { parent_complete = true })

-- The prompt of a turn.
unfoldable pub submit_prompt : Option String → ℕ → String → RuntimeValues → Bool × RuntimeValues
unfolding clear_waits start_parent
submit_prompt none now silence_id v = (false, v)
submit_prompt (some turn) now silence_id v = (
  not (opt_eq v.parent_turn_id (some turn)) || is_none v.parent,
  clear_waits (start_parent turn now silence_id v),
)

-- `_apply_event`
unfoldable pub apply_event :
    HookEvent → HookPayload → ℕ → String → RuntimeValues → Bool × RuntimeValues
unfolding submit_prompt start_child update_monitor stop_parent
apply_event session_start p now silence_id v = (false, v)
apply_event user_prompt_submit p now silence_id v = submit_prompt p.turn_id now silence_id v
apply_event subagent_start p now silence_id v = start_child p.agent_id now silence_id v
apply_event subagent_stop p now silence_id v = (false, update_monitor p.agent_id terminated v)
apply_event pre_tool_use p now silence_id v = (false, update_monitor p.agent_id with_tool v)
apply_event post_tool_use p now silence_id v =
    (false, update_monitor p.agent_id (without_tool now) v)
apply_event permission_request p now silence_id v =
    (false, update_monitor p.agent_id with_approval_wait v)
apply_event stop p now silence_id v = stop_parent v

-- The epoch moves on if the tree of monitors differs.
unfoldable pub count_activity : RuntimeValues → RuntimeValues → RuntimeValues
unfolding same_tree advance_turn_activity_epoch
count_activity before after =
    if same_tree before after then after else advance_turn_activity_epoch after

-- `apply_hook_event`
unfoldable pub apply_hook_event : HookPayload → ℕ → String → RuntimeValues → Bool × RuntimeValues
unfolding apply_event count_activity
apply_hook_event p now silence_id v =
    let (launch, after) = apply_event p.event p now silence_id v in (launch, count_activity v after)

-- What a hook does besides its writes: it launches a watcher, or asks Codex to go on.
pub record HookResult : Type 0 where
  pub launch : Bool
  pub stop_continuation : Bool

abbrev pub is_stop : HookEvent → Bool
is_stop stop = true
is_stop _ = false

abbrev pub is_session_start : HookEvent → Bool
is_session_start session_start = true
is_session_start _ = false

-- `process_hook` on the file of the session.
unfoldable pub process_hook :
    HookPayload → Bool → ℕ → String → RuntimeValues → Option HookResult × RuntimeValues
unfolding apply_hook_event
process_hook p same_transcript now silence_id v =
    let (launch, after) = apply_hook_event p now silence_id v in
    if is_session_start p.event || not v.enabled || not same_transcript then (none, v) else (
      some (record {
        launch = launch;
        stop_continuation = is_stop p.event && not after.observe_only && not after.managed_mode;
      }),
      record after { revision = v.revision + 1 },
    )

-- `defer_session_shutdown` on the file of the session.
unfoldable pub defer_session_shutdown : Bool → RuntimeValues → Bool × RuntimeValues
defer_session_shutdown interrupt_active v =
    if not v.managed_mode || not v.manager_ready || is_none v.managed_turn_id then (false, v) else (
      true,
      record v {
        shutdown_requested = true;
        shutdown_interrupt = interrupt_active;
        handoff_requested = false;
        restart_request = none;
        restart_claimed = false;
        restart_claimed_at = none;
        revision = v.revision + 1;
      },
    )

-- One hook of a session, as it arrives.
pub record Hook : Type 0 where
  pub payload : HookPayload
  pub same_transcript : Bool
  pub now : ℕ
  pub silence_id : String

unfoldable pub process : RuntimeValues → Hook → RuntimeValues
unfolding process_hook
process v h = (process_hook h.payload h.same_transcript h.now h.silence_id v).1

unfoldable pub process_all : RuntimeValues → List Hook → RuntimeValues
unfolding process
process_all v [] = v
process_all v (h ∷ hooks) = process_all (process v h) hooks
