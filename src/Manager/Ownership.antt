-- ===== src/Manager/Ownership.antt =====
-- The writes of scripts/manager_runtime.py, with the fences of scripts/daemon_activation_fence.py,
-- the claim of scripts/manager_restart_guard.py and the failure of scripts/manager_failure.py. Each is
-- the update that runs under the file's lock: `err` is a raise, which leaves the file as it was.
pub mod Protocol
pub mod Histories
use codex_must_work.Prelude.{
  ℕ, ◌+◌, String, Bool, true, false, not, ◌&&◌, ◌||◌, Option, none, some, ltb, leb, ◌==◌, str_eq,
  opt_eq, is_none, if◌then◌else◌, Result, ok, err, ◌>>=◌, ◌>>◌, fail_if,
}
use codex_must_work.Manager.{RestartRequest, Monitor, Values}

unfoldable pub bump_revision : Values → Values
bump_revision v = record v { revision = v.revision + 1 }

unfoldable pub require_managed : Values → Result (Unit {0})
require_managed v = fail_if (not v.enabled || not v.managed_mode) "managed_mode_not_enabled"

-- `_next_parent_generation` and `_new_monitor`
unfoldable pub new_parent : Option Monitor → ℕ → Monitor
new_parent previous now = record {
  terminal = false;
  generation = elim previous [
    | none ↦ 1
    | some m ↦ if ltb 0 m.generation then m.generation + 1 else 2
  ];
  silence_started_at = now;
  open_tool_count = 0;
  waiting_for_approval = false;
  waiting_for_user = false;
  progress_epoch = 0;
}

-- `start_managed_parent`, that is `_start_parent` of scripts/hook_state.py
unfoldable pub start_managed_parent : Values → String → ℕ → Values
unfolding new_parent
start_managed_parent v turn_id now = record v {
  parent =
      if not (opt_eq v.parent_turn_id (some turn_id)) || is_none v.parent
      then some (new_parent v.parent now)
      else v.parent;
  parent_turn_id = some turn_id;
  parent_complete = false;
}

unfoldable pub mark_manager_ready : ℕ → Values → Result Values
unfolding bump_revision require_managed
mark_manager_ready pid v = do
  fail_if (pid == 0) "manager_pid_invalid"
  require_managed v
  ok (
      bump_revision
        (record v { manager_ready = true; manager_pid = some pid; manager_error = none }))

unfoldable pub mark_manager_stopped : Values → Result Values
unfolding bump_revision
mark_manager_stopped v = ok (bump_revision (record v { manager_ready = false; manager_pid = none }))

unfoldable pub request_manager_startup_cancel : Values → Result Values
unfolding bump_revision require_managed
request_manager_startup_cancel v = do
  require_managed v
  let cancelled = record v {
    shutdown_requested = true;
    shutdown_interrupt = false;
    handoff_requested = false;
  }
  ok (if v.manager_ready then v else bump_revision cancelled)

-- `record_turn_started`: ownership of a turn that was seen to start.
unfoldable pub record_turn_started : String → ℕ → Values → Result Values
unfolding bump_revision require_managed start_managed_parent
record_turn_started turn_id now v = do
  fail_if (str_eq turn_id "") "managed_turn_id_missing"
  require_managed v
  fail_if (not v.handoff_requested || not (is_none v.managed_turn_id)) "handoff_state_changed"
  fail_if (not (is_none v.pending_turn_id) && not (opt_eq v.pending_turn_id (some turn_id)))
      "handoff_state_changed"
  ok (
      bump_revision (
        start_managed_parent
          (record v {
            pending_turn_id = none;
            pending_turn_timed_out_at = none;
            managed_turn_id = some turn_id;
            handoff_requested = false;
            restart_request = none;
            restart_claimed = false;
            restart_claimed_at = none;
          })
          turn_id now))

unfoldable pub record_pending_turn : String → Values → Result Values
unfolding bump_revision require_managed
record_pending_turn turn_id v = do
  fail_if (str_eq turn_id "") "managed_turn_id_missing"
  require_managed v
  fail_if
      (not v.handoff_requested
        || (not (is_none v.managed_turn_id) || not (is_none v.pending_turn_id)))
      "handoff_state_changed"
  ok (bump_revision (record v { pending_turn_id = some turn_id; pending_turn_timed_out_at = none }))

unfoldable pub mark_pending_turn_timed_out : String → ℕ → Values → Result Values
unfolding bump_revision require_managed
mark_pending_turn_timed_out turn_id timed_out_at v = do
  require_managed v
  fail_if (not (opt_eq v.pending_turn_id (some turn_id))) "handoff_state_changed"
  ok (bump_revision (record v { pending_turn_timed_out_at = some timed_out_at }))

-- `clear_pending_turn`, with whether this call cleared it.
unfoldable pub clear_pending_turn : String → Values → Values × Bool
unfolding bump_revision
clear_pending_turn turn_id v =
    if not (opt_eq v.pending_turn_id (some turn_id)) then (v, false) else (
      bump_revision (record v { pending_turn_id = none; pending_turn_timed_out_at = none }),
      true,
    )

-- `_finish_turn`
unfoldable pub finish_turn : Values → Values
unfolding bump_revision
finish_turn v = bump_revision (record v {
  pending_turn_id = none;
  pending_turn_timed_out_at = none;
  managed_turn_id = none;
  restart_request = none;
  restart_claimed = false;
  restart_claimed_at = none;
  handoff_requested = true;
})

unfoldable pub record_turn_finished : String → Values → Result Values
unfolding finish_turn
record_turn_finished turn_id v = do
  fail_if (not (opt_eq v.managed_turn_id (some turn_id))) "completed_turn_not_owned"
  ok (finish_turn v)

abbrev pub restart_claim_ttl : ℕ
restart_claim_ttl = 60000000

-- `restart_claim_is_current`: neither in the future nor older than a minute.
unfoldable pub restart_claim_is_current : ℕ → ℕ → Bool
restart_claim_is_current claimed_at now =
    leb claimed_at now && leb now (claimed_at + restart_claim_ttl)

-- The `turn_id` of the request is the turn in question.
abbrev pub requests_turn : String → Option RestartRequest → Bool
requests_turn turn_id none = false
requests_turn turn_id (some r) = str_eq r.turn_id turn_id

abbrev pub claim_is_current : Option ℕ → ℕ → Bool
unfolding restart_claim_is_current
claim_is_current none now = false
claim_is_current (some at) now = restart_claim_is_current at now

-- `record_restart_performed`, up to the diagnostic that follows the write.
unfoldable pub record_restart_performed : String → ℕ → Values → Result Values
unfolding finish_turn claim_is_current
record_restart_performed turn_id now v = do
  fail_if (not (requests_turn turn_id v.restart_request)) "restart_request_changed"
  fail_if (not (opt_eq v.managed_turn_id (some turn_id))) "restart_turn_not_owned"
  fail_if (not v.restart_claimed) "restart_request_not_claimed"
  fail_if (not (claim_is_current v.restart_claimed_at now)) "interrupt_claim_expired"
  ok (finish_turn (record v { restart_count = v.restart_count + 1 }))

-- `_clear_request`
unfoldable pub clear_request : Values → Values
unfolding bump_revision
clear_request v =
    bump_revision
      (record v { restart_request = none; restart_claimed = false; restart_claimed_at = none })

-- The equality of the dataclass `RestartRequest`, and `current == request`.
unfoldable pub same_request : Option RestartRequest → RestartRequest → Bool
same_request none r = false
same_request (some q) r =
    str_eq q.request_id r.request_id
    && (str_eq q.turn_id r.turn_id
        && (opt_eq q.target_id r.target_id
            && (q.target_generation == r.target_generation
                && (q.progress_epoch == r.progress_epoch
                    && q.turn_activity_epoch == r.turn_activity_epoch))))

-- `_request_is_fresh` as a write, for the request loaded before; `holds` is what its checks of the
-- ownership, the monitors and the unread events say. Evidence that does not hold is cleared.
unfoldable pub request_is_fresh : RestartRequest → Bool → Values → Values × Bool
unfolding clear_request same_request
request_is_fresh r holds v =
    if not (same_request v.restart_request r)
    then (v, false)
    else if holds
    then (v, true)
    else (clear_request v, false)

-- The write of `claim_restart_request`.
unfoldable pub claim_restart_request : RestartRequest → Bool → ℕ → Values → Values × Bool
unfolding bump_revision request_is_fresh
claim_restart_request r holds now v =
    let (checked, current) = request_is_fresh r holds v in
    let claimed = record checked { restart_claimed = true; restart_claimed_at = some now } in
    if v.restart_claimed
    then (v, false)
    else if not current
    then (checked, false)
    else (bump_revision claimed, true)

-- The write of `record_manager_failure`, for a reason on its allowlist.
unfoldable pub record_manager_failure : String → Values → Values
unfolding bump_revision
record_manager_failure reason v =
    bump_revision
      (record v { manager_ready = false; manager_pid = none; manager_error = some reason })

-- `DaemonActivationFences.adopt_started`, the write.
unfoldable pub adopt_started : String → ℕ → Values → Values × Bool
unfolding bump_revision start_managed_parent
adopt_started turn_id now v =
    if not v.enabled
      || (not v.managed_mode
          || (v.goal_companion
              || (v.shutdown_requested
                  || (not v.handoff_requested
                      || (not (is_none v.managed_turn_id) || not (is_none v.pending_turn_id))))))
    then (v, false)
    else (
      bump_revision (record (start_managed_parent v turn_id now) {
        turn_activity_epoch = v.turn_activity_epoch + 1;
        handoff_requested = false;
      }),
      true,
    )

-- `mark_target_terminal` at the parent: `err` where the file has no running or terminal parent.
unfoldable pub mark_parent_terminal : Values → Result Values
mark_parent_terminal v = elim v.parent [
  | none ↦ err "invalid_value"
  | some m ↦ ok (record v { parent = some (record m { terminal = true }) })
]

-- `DaemonActivationFences.complete`, the write: the first handoff.
unfoldable pub complete_activation : String → Values → Result Values
unfolding bump_revision mark_parent_terminal
complete_activation turn_id v = do
  fail_if (not (opt_eq v.parent_turn_id (some turn_id))) "activation_turn_ownership_changed"
  fail_if (not (is_none v.managed_turn_id)) "activation_turn_ownership_changed"
  marked ← mark_parent_terminal v
  ok (bump_revision (record marked { handoff_requested = true; parent_complete = false }))

-- `DaemonActivationFences.bind`, the write.
unfoldable pub bind_activation : String → ℕ → Values → Values
unfolding bump_revision start_managed_parent
bind_activation turn_id now v = bump_revision (start_managed_parent v turn_id now)

-- The runtime values that `enable_session` of scripts/setup.py writes.
unfoldable pub enabled_values : String → Bool → Bool → Values
enabled_values session_id managed_mode goal_companion = record {
  session_id = session_id;
  enabled = true;
  managed_mode = managed_mode;
  goal_companion = goal_companion;
  manager_ready = false;
  manager_pid = none;
  manager_error = none;
  handoff_requested = false;
  managed_turn_id = none;
  pending_turn_id = none;
  pending_turn_timed_out_at = none;
  restart_request = none;
  restart_claimed = false;
  restart_claimed_at = none;
  restart_count = 0;
  shutdown_requested = false;
  shutdown_interrupt = false;
  parent_turn_id = none;
  parent_complete = false;
  parent = none;
  turn_activity_epoch = 0;
  revision = 0;
}
