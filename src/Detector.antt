-- ===== src/Detector.antt =====
-- scripts/stall_detector.py: the warning and critical-stall detector of one monitored target.
-- A monotonic time is a natural number of clock ticks. `elapsed < w`, with `elapsed = now - t`, is
-- written `now < t + w`, which is the same comparison of integers when `now` lies before `t` too.
-- A silence id is the pair of numbers that the source renders into a text.
pub mod Waits
pub mod Runs
pub mod Escalation
mod Tests
use codex_must_work.Prelude.{
  ℕ, ◌+◌, max, Bool, true, false, not, ◌&&◌, ◌||◌, Option, none, some, leb, ltb, ◌==◌,
  if◌then◌else◌,
}

pub data ProgressKind : Type 0 where
  item delta tool_result : ProgressKind

pub data MonitorPhase : Type 0 where
  healthy paused silent_warned critical terminal : MonitorPhase

pub data Action : Type 0 where
  no_action warning critical stop : Action

-- A Python float as a duration: a whole number of ticks of either sign, or a value that is not
-- finite.
pub data Seconds : Type 0 where
  ticks : ℕ → Seconds
  minus : ℕ → Seconds
  not_finite : Seconds

pub record Thresholds : Type 0 where
  pub warning : ℕ
  pub critical : ℕ

-- `Thresholds.__post_init__`: `none` is the `ValueError`. `minus n` stands for `-n`.
pub thresholds : Seconds → Seconds → Option Thresholds
thresholds (ticks w) (ticks c) =
    if w == 0 || leb c w then none else some (record { warning = w; critical = c })
thresholds w c = none

pub record WaitState : Type 0 where
  pub open_tool_count : ℕ
  pub waiting_for_approval : Bool
  pub waiting_for_user : Bool
  pub child_terminal : Bool
  pub parent_complete : Bool

abbrev pub no_wait : WaitState
no_wait = record {
  open_tool_count = 0;
  waiting_for_approval = false;
  waiting_for_user = false;
  child_terminal = false;
  parent_complete = false;
}

-- `WaitState.terminal` and `WaitState.paused`
unfoldable pub is_terminal : WaitState → Bool
is_terminal w = w.child_terminal || w.parent_complete

unfoldable pub is_paused : WaitState → Bool
unfolding is_terminal
is_paused w =
    not (is_terminal w) && (ltb 0 w.open_tool_count || w.waiting_for_approval || w.waiting_for_user)

pub record SilenceId : Type 0 where
  pub sequence : ℕ
  pub at : ℕ

pub record SilenceState : Type 0 where
  pub phase : MonitorPhase
  pub silence_id : SilenceId
  pub silence_sequence : ℕ
  pub silence_started_at : ℕ
  pub waits : WaitState
  pub item_at : Option ℕ
  pub delta_at : Option ℕ
  pub tool_result_at : Option ℕ
  pub warning_emitted : Bool
  pub critical_emitted : Bool

pub record Evaluation : Type 0 where
  pub state : SilenceState
  pub action : Action

unfoldable pub initial_state : ℕ → SilenceState
initial_state at = record {
  phase = healthy;
  silence_id = record { sequence = 0; at = at };
  silence_sequence = 0;
  silence_started_at = at;
  waits = no_wait;
  item_at = none;
  delta_at = none;
  tool_result_at = none;
  warning_emitted = false;
  critical_emitted = false;
}

abbrev pub later : ℕ → Option ℕ → ℕ
later a none = a
later a (some b) = max a b

unfoldable pub latest_progress_at : SilenceState → ℕ
latest_progress_at s =
    later (later (later s.silence_started_at s.item_at) s.delta_at) s.tool_result_at

-- `_next_interval`
unfoldable pub next_interval : SilenceState → ℕ → SilenceState
unfolding is_paused
next_interval s at = record s {
  phase = if is_paused s.waits then paused else healthy;
  silence_id = record { sequence = s.silence_sequence + 1; at = at };
  silence_sequence = s.silence_sequence + 1;
  warning_emitted = false;
  critical_emitted = false;
}

unfoldable pub stamp : SilenceState → ProgressKind → ℕ → SilenceState
stamp s item at = record s { silence_started_at = at; item_at = some at }
stamp s delta at = record s { silence_started_at = at; delta_at = some at }
stamp s tool_result at = record s { silence_started_at = at; tool_result_at = some at }

unfoldable pub record_progress : SilenceState → ProgressKind → ℕ → SilenceState
unfolding is_terminal latest_progress_at next_interval stamp
record_progress s kind at =
    if is_terminal s.waits || ltb at (latest_progress_at s)
    then s
    else next_interval (stamp s kind at) at

unfoldable pub set_wait_state : SilenceState → WaitState → Bool → SilenceState
unfolding is_terminal is_paused
set_wait_state s waits resume_confirmed =
    if is_terminal waits
    then record s { phase = terminal; waits = waits }
    else if is_paused waits
    then record s { phase = paused; waits = waits }
    else if is_paused s.waits && not resume_confirmed
    then record s { phase = paused }
    else record s { phase = if is_paused s.waits then healthy else s.phase; waits = waits }

-- The phase, the two flags and the action that one evaluation settles on.
pub record Verdict : Type 0 where
  pub phase : MonitorPhase
  pub warning_emitted : Bool
  pub critical_emitted : Bool
  pub action : Action

verdict : SilenceState → ℕ → Thresholds → Verdict
unfolding is_terminal is_paused latest_progress_at
verdict s now t =
    let still : Verdict = record {
      phase = s.phase;
      warning_emitted = s.warning_emitted;
      critical_emitted = s.critical_emitted;
      action = no_action;
    } in
    if is_terminal s.waits
    then record still { phase = terminal; action = stop }
    else if is_paused s.waits
    then record still { phase = paused }
    else if ltb now (latest_progress_at s + t.warning)
    then record still { phase = healthy }
    else if not s.warning_emitted
    then record still { phase = silent_warned; action = warning; warning_emitted = true }
    else if ltb now (latest_progress_at s + t.critical)
    then record still { phase = silent_warned }
    else if not s.critical_emitted
    then record still { phase = critical; action = critical; critical_emitted = true }
    else still

unfoldable pub evaluate : SilenceState → ℕ → Thresholds → Evaluation
unfolding verdict
evaluate s now t =
    let v = verdict s now t in
    record {
      state = record s {
        phase = v.phase;
        warning_emitted = v.warning_emitted;
        critical_emitted = v.critical_emitted;
      };
      action = v.action;
    }
