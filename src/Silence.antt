-- ===== src/Silence.antt =====
-- scripts/silence.py: the silence detector with an automatic restart, behind a gate. Its classes
-- `ProgressKind` and `WaitState` repeat those of scripts/stall_detector.py word for word and are the
-- model's own for both; times and silence ids are as in Detector.
pub mod Gate
pub mod Stall
mod Tests
use codex_must_work.Prelude.{
  ℕ, ◌+◌, ◌-◌, Bool, true, false, not, ◌&&◌, ◌||◌, Option, none, some, ltb, ◌==◌, if◌then◌else◌,
}
use codex_must_work.Detector.{
  ProgressKind, item, delta, tool_result, WaitState, no_wait, SilenceId, is_terminal, is_paused,
  later,
}

pub data MonitorPhase : Type 0 where
  healthy paused silent_warned restart_eligible restarted terminal : MonitorPhase

pub data Action : Type 0 where
  no_action warning restart_limited auto_restart stop : Action

pub record Thresholds : Type 0 where
  pub warning : ℕ
  pub restart : ℕ

pub record RestartGate : Type 0 where
  pub requested_by_user : Bool
  pub capability_ready : Bool
  pub latest_event_check_passed : Bool
  pub target_generation_verified : Bool
  pub clock_reliable : Bool
  pub restart_eligible_siblings : ℕ

-- `RestartGate.effective`
unfoldable pub is_effective : RestartGate → Bool
is_effective g =
    g.requested_by_user
    && (g.capability_ready
        && (g.latest_event_check_passed
            && (g.target_generation_verified
                && (g.clock_reliable && g.restart_eligible_siblings == 1))))

pub record SilenceState : Type 0 where
  pub phase : MonitorPhase
  pub silence_id : SilenceId
  pub silence_sequence : ℕ
  pub silence_started_at : ℕ
  pub waits : WaitState
  pub item_at : Option ℕ
  pub delta_at : Option ℕ
  pub tool_result_at : Option ℕ
  pub warning_emitted : Bool
  pub restart_eligibility_emitted : Bool

pub record Evaluation : Type 0 where
  pub state : SilenceState
  pub action : Action

unfoldable pub initial_state : ℕ → SilenceState
initial_state at = record {
  phase = healthy;
  silence_id = record { sequence = 0; at = at };
  silence_sequence = 0;
  silence_started_at = at;
  waits = no_wait;
  item_at = none;
  delta_at = none;
  tool_result_at = none;
  warning_emitted = false;
  restart_eligibility_emitted = false;
}

unfoldable pub latest_progress_at : SilenceState → ℕ
latest_progress_at s =
    later (later (later s.silence_started_at s.item_at) s.delta_at) s.tool_result_at

-- `_next_interval`
unfoldable pub next_interval : SilenceState → ℕ → SilenceState
unfolding is_paused
next_interval s at = record s {
  phase = if is_paused s.waits then paused else healthy;
  silence_id = record { sequence = s.silence_sequence + 1; at = at };
  silence_sequence = s.silence_sequence + 1;
  warning_emitted = false;
  restart_eligibility_emitted = false;
}

unfoldable pub stamp : SilenceState → ProgressKind → ℕ → SilenceState
stamp s item at = record s { silence_started_at = at; item_at = some at }
stamp s delta at = record s { silence_started_at = at; delta_at = some at }
stamp s tool_result at = record s { silence_started_at = at; tool_result_at = some at }

unfoldable pub record_progress : SilenceState → ProgressKind → ℕ → SilenceState
unfolding is_terminal latest_progress_at next_interval stamp
record_progress s kind at =
    if is_terminal s.waits || ltb at (latest_progress_at s)
    then s
    else next_interval (stamp s kind at) at

abbrev pub is_restarted : MonitorPhase → Bool
is_restarted restarted = true
is_restarted _ = false

unfoldable pub rearm_cancelled_restart : SilenceState → ℕ → SilenceState
unfolding is_terminal next_interval
rearm_cancelled_restart s at =
    if not (is_restarted s.phase) || is_terminal s.waits
    then s
    else next_interval (record s { silence_started_at = at }) at

unfoldable pub record_tool_started : SilenceState → ℕ → SilenceState
unfolding record_progress
record_tool_started s at =
    record_progress
      (record s { waits = record s.waits { open_tool_count = s.waits.open_tool_count + 1 } }) item
      at

-- The count stops at 0 in the source too.
unfoldable pub record_tool_result : SilenceState → ℕ → SilenceState
unfolding record_progress
record_tool_result s at =
    record_progress
      (record s { waits = record s.waits { open_tool_count = s.waits.open_tool_count - 1 } })
      tool_result at

unfoldable pub set_wait_state : SilenceState → WaitState → ℕ → Bool → SilenceState
unfolding is_terminal is_paused next_interval
set_wait_state s waits at resume_confirmed =
    let resumed = record s { waits = waits } in
    if is_terminal waits
    then record resumed { phase = terminal }
    else if is_paused waits
    then record resumed { phase = paused }
    else if is_paused s.waits && not resume_confirmed
    then record s { phase = paused }
    else if not (is_paused s.waits)
    then resumed
    else next_interval (record resumed { silence_started_at = at }) at

-- The phase, the two flags and the action that one evaluation settles on.
pub record Verdict : Type 0 where
  pub phase : MonitorPhase
  pub warning_emitted : Bool
  pub restart_emitted : Bool
  pub action : Action

unfoldable pub verdict : SilenceState → ℕ → Thresholds → RestartGate → Verdict
unfolding is_terminal is_paused latest_progress_at is_effective
verdict s now t gate =
    let still : Verdict = record {
      phase = s.phase;
      warning_emitted = s.warning_emitted;
      restart_emitted = s.restart_eligibility_emitted;
      action = no_action;
    } in
    if is_terminal s.waits
    then record still { phase = terminal; action = stop }
    else if is_paused s.waits
    then record still { phase = paused }
    else if ltb now (latest_progress_at s + t.warning)
    then record still { phase = healthy }
    else if not s.warning_emitted
    then record still { phase = silent_warned; action = warning; warning_emitted = true }
    else if ltb now (latest_progress_at s + t.restart)
    then record still { phase = silent_warned }
    else if is_effective gate && not (is_restarted s.phase)
    then record still { phase = restarted; action = auto_restart; restart_emitted = true }
    else if not s.restart_eligibility_emitted
    then record still { phase = restart_eligible; action = restart_limited; restart_emitted = true }
    else still

unfoldable pub evaluate : SilenceState → ℕ → Thresholds → RestartGate → Evaluation
unfolding verdict
evaluate s now t gate =
    let v = verdict s now t gate in
    record {
      state = record s {
        phase = v.phase;
        warning_emitted = v.warning_emitted;
        restart_eligibility_emitted = v.restart_emitted;
      };
      action = v.action;
    }
