-- ===== src/Events.antt =====
-- scripts/watcher_events.py: rollout events applied to the detector of one target, and which events
-- count as activity of the watched turn. The event's fields that this code reads are those of
-- `ObservedEvent` in scripts/event_source.py, the target's those of scripts/monitor_target.py.
-- A date is a number of clock ticks; a set of call ids is a list without duplicates.
pub mod Progress
pub mod OpenCalls
mod Tests
use codex_must_work.Prelude.{
  ℕ, String, Bool, true, false, not, ◌&&◌, ◌||◌, Option, none, some, List, [], ◌∷◌, ltb, any,
  is_none, opt_eq, str_eq, if◌then◌else◌,
}
use codex_must_work.Detector.{ProgressKind, SilenceState, record_progress}

pub data EventKind : Type 0 where
  session_metadata turn_started turn_completed turn_aborted item delta : EventKind
  tool_started tool_result : EventKind

pub record ObservedEvent : Type 0 where
  pub kind : EventKind
  pub occurred_at : ℕ
  pub turn_id : Option String
  pub item_id : Option String
  pub child_id : Option String
  pub call_id : Option String
  pub terminal : Bool
  pub fallback_tool_result : Bool

pub record MonitorTarget : Type 0 where
  pub target_id : Option String
  pub started_at : Option ℕ

-- The members of `TargetEventContext` but the events.
pub record TargetEventContext : Type 0 where
  pub now : ℕ
  pub parent_turn_id : Option String

-- Python's `a or b` on values of type `str | None`: an empty text counts as absent.
pub or_text : Option String → Option String → Option String
or_text none b = b
or_text (some a) b = if str_eq a "" then b else some a

pub call_key : ObservedEvent → Option String
unfolding or_text
call_key e = or_text e.call_id e.item_id

abbrev pub contains : String → List String → Bool
contains x [] = false
contains x (y ∷ ys) = str_eq y x || contains x ys

-- `set.add` and `set.discard`
pub add_call : String → List String → List String
add_call x calls = if contains x calls then calls else x ∷ calls

pub discard_call : String → List String → List String
discard_call x [] = []
discard_call x (y ∷ ys) = if str_eq y x then ys else y ∷ discard_call x ys

-- `_event_matches_target`
pub event_matches_target : ObservedEvent → MonitorTarget → Option String → Bool
event_matches_target e t parent =
    if elim t.started_at [ none ↦ false | some at ↦ ltb e.occurred_at at ]
    then false
    else if is_none t.target_id && not (is_none e.child_id)
    then true
    else if not (opt_eq e.child_id t.target_id)
    then false
    else not (
        is_none t.target_id
        && (not (is_none e.turn_id) && (not (is_none parent) && not (opt_eq e.turn_id parent))))

-- `_terminal_matches`
pub terminal_matches : ObservedEvent → MonitorTarget → Option String → Bool
terminal_matches e t parent =
    if not e.terminal
    then false
    else not (is_none t.target_id) || (not (is_none parent) && opt_eq e.turn_id parent)

-- What one event changes: the open tool calls and the detector.
pub record Watched : Type 0 where
  pub open_calls : List String
  pub state : SilenceState

-- `_tool_started`: an empty id is not kept.
tool_call_started : Watched → ObservedEvent → ℕ → Watched
unfolding call_key add_call
tool_call_started w e now = record {
  open_calls = elim (call_key e) [
    | none ↦ w.open_calls
    | some id ↦ if str_eq id "" then w.open_calls else add_call id w.open_calls
  ];
  state = record_progress w.state ProgressKind.item now;
}

-- `len(open_calls) == 1`, then `open_calls.pop()`
pop_single : List String → List String
pop_single (x ∷ []) = []
pop_single xs = xs

-- `_tool_result`
tool_call_ended : Watched → ObservedEvent → ℕ → Watched
unfolding call_key discard_call pop_single
tool_call_ended w e now = record {
  open_calls = elim (call_key e) [
    | none ↦ if e.fallback_tool_result then pop_single w.open_calls else w.open_calls
    | some id ↦ discard_call id w.open_calls
  ];
  state = record_progress w.state ProgressKind.tool_result now;
}

-- The `match` of `apply_target_events`.
pub apply_event : EventKind → Watched → ObservedEvent → ℕ → Watched
unfolding tool_call_started tool_call_ended
apply_event item w e now = record w { state = record_progress w.state ProgressKind.item now }
apply_event turn_started w e now = record w {
  state = record_progress w.state ProgressKind.item now;
}
apply_event delta w e now = record w { state = record_progress w.state ProgressKind.delta now }
apply_event tool_started w e now = tool_call_started w e now
apply_event tool_result w e now = tool_call_ended w e now
apply_event turn_completed w e now = record w {
  state = record_progress w.state ProgressKind.item now;
}
apply_event turn_aborted w e now = record w {
  state = record_progress w.state ProgressKind.item now;
}
apply_event session_metadata w e now = w

-- `apply_target_events`: the loop over the batch, with `terminal` as its accumulator.
pub apply_loop :
    MonitorTarget → TargetEventContext → List ObservedEvent → Watched → Bool → Watched × Bool
unfolding event_matches_target terminal_matches apply_event
apply_loop t c [] w terminal = (w, terminal)
apply_loop t c (e ∷ es) w terminal =
    let skipped = apply_loop t c es w terminal in
    let applied =
      apply_loop t c es (apply_event e.kind w e c.now)
        (terminal || terminal_matches e t c.parent_turn_id) in
    if event_matches_target e t c.parent_turn_id then applied else skipped

unfoldable pub apply_target_events :
    MonitorTarget → TargetEventContext → List ObservedEvent → Watched → Watched × Bool
unfolding apply_loop
apply_target_events t c es w = apply_loop t c es w false

-- The set of kinds in `event_is_target_progress`.
is_progress : EventKind → Bool
is_progress item = true
is_progress turn_started = true
is_progress delta = true
is_progress tool_started = true
is_progress tool_result = true
is_progress _ = false

pub event_is_target_progress : ObservedEvent → MonitorTarget → Option String → Bool
unfolding event_matches_target is_progress
event_is_target_progress e t parent =
    if not (event_matches_target e t parent) then false else is_progress e.kind

unfoldable pub event_is_turn_activity : ObservedEvent → List MonitorTarget → Option String → Bool
unfolding event_is_target_progress terminal_matches
event_is_turn_activity e targets parent =
    any
      (λ m.
        event_matches_target e m parent
        && (event_is_target_progress e m parent || terminal_matches e m parent))
      targets

is_completed : EventKind → Bool
is_completed turn_completed = true
is_completed _ = false

unfoldable pub parent_completed : Option String → List ObservedEvent → Bool
unfolding is_completed
parent_completed parent events =
    any
      (λ e.
        is_completed e.kind
        && (is_none e.child_id && (not (is_none parent) && opt_eq e.turn_id parent)))
      events
