-- ===== src/Events/Progress.antt =====
-- What a batch of events does to the detector and to the terminal flag.
use codex_must_work.Prelude.{
  ◌∙◌, ap, refl, inl, inr, Bool-cases, Bool-cases, some, All, ℕ, ◌+◌, ◌≤◌, ◌≡◌, Bool, true, false,
  not, ◌&&◌, ◌||◌, List, [], ◌∷◌, arith, any, count_if,
}
use codex_must_work.Detector.{
  ProgressKind, SilenceState, is_terminal, latest_progress_at, record_progress,
}
use codex_must_work.Events.{
  some, String, Option, is_progress, event_is_target_progress, event_is_turn_activity, EventKind,
  session_metadata, turn_started, turn_completed, turn_aborted, item, delta, tool_started,
  tool_result, ObservedEvent, MonitorTarget, TargetEventContext, Watched, event_matches_target,
  terminal_matches, apply_event, apply_loop, apply_target_events,
}

-- The events of a batch that concern the target, but for session metadata.
abbrev is_metadata : EventKind → Bool
is_metadata session_metadata = true
is_metadata _ = false

abbrev pub counts : MonitorTarget → TargetEventContext → ObservedEvent → Bool
counts t c e = event_matches_target e t c.parent_turn_id && not (is_metadata e.kind)

abbrev pub ends : MonitorTarget → TargetEventContext → ObservedEvent → Bool
ends t c e = event_matches_target e t c.parent_turn_id && terminal_matches e t c.parent_turn_id

terminal-loop :
    (t : MonitorTarget) (c : TargetEventContext) (es : List ObservedEvent) (w : Watched) (b : Bool)
    → (apply_loop t c es w b).1 ≡ (b || any (ends t c) es)
unfolding apply_loop
terminal-loop t c [] w b = ground arith
terminal-loop t c (e ∷ es) w b = ground (
  arith,
  terminal-loop t c es w b,
  terminal-loop t c es (apply_event e.kind w e c.now) (b || terminal_matches e t c.parent_turn_id),
)

-- The batch is reported terminal exactly when one of its events matches the target and ends it,
-- whatever comes before or after that event.
terminal-apply_target_events :
    (t : MonitorTarget) (c : TargetEventContext) (es : List ObservedEvent) (w : Watched)
    → (apply_target_events t c es w).1 ≡ any (ends t c) es
unfolding apply_target_events
terminal-apply_target_events t c es w = terminal-loop t c es w false

-- A detector that takes progress dated `now`.
abbrev pub IsOpen : ℕ → SilenceState → Type 0
IsOpen now s = (is_terminal s.waits ≡ false) × (latest_progress_at s ≤ now)

progress-IsOpen :
    (s : SilenceState) (k : ProgressKind) (now : ℕ)
    → IsOpen now s
    → IsOpen now (record_progress s k now)
      × ((record_progress s k now).silence_sequence ≡ s.silence_sequence + 1)
unfolding record_progress
progress-IsOpen s ProgressKind.item now h = ((ground arith, ground arith), ground arith)
progress-IsOpen s ProgressKind.delta now h = ((ground arith, ground arith), ground arith)
progress-IsOpen s ProgressKind.tool_result now h = ((ground arith, ground arith), ground arith)

apply_event-IsOpen :
    (k : EventKind) (w : Watched) (e : ObservedEvent) (now : ℕ)
    → IsOpen now w.state
    → IsOpen now (apply_event k w e now).state
      × ((apply_event k w e now).state.silence_sequence
          ≡ w.state.silence_sequence + count_if (λ k. not (is_metadata k)) (k ∷ []))
unfolding apply_event
apply_event-IsOpen session_metadata w e now h = (h, omega arith)
apply_event-IsOpen turn_started w e now h = progress-IsOpen w.state _ now h
apply_event-IsOpen turn_completed w e now h = progress-IsOpen w.state _ now h
apply_event-IsOpen turn_aborted w e now h = progress-IsOpen w.state _ now h
apply_event-IsOpen item w e now h = progress-IsOpen w.state _ now h
apply_event-IsOpen delta w e now h = progress-IsOpen w.state _ now h
apply_event-IsOpen tool_started w e now h = progress-IsOpen w.state _ now h
apply_event-IsOpen tool_result w e now h = progress-IsOpen w.state _ now h

sequence-loop :
    (t : MonitorTarget) (c : TargetEventContext) (es : List ObservedEvent) (w : Watched) (b : Bool)
    → IsOpen c.now w.state
    → (apply_loop t c es w b).0.state.silence_sequence
      ≡ w.state.silence_sequence + count_if (counts t c) es
unfolding apply_loop
sequence-loop t c [] w b h = omega arith
sequence-loop t c (e ∷ es) w b h =
    let one = apply_event-IsOpen e.kind w e c.now h in
    ground (
      arith,
      one.1,
      sequence-loop t c es w b h,
      sequence-loop t c es (apply_event e.kind w e c.now)
          (b || terminal_matches e t c.parent_turn_id) one.0,
    )

-- For a target that has not ended and whose latest progress is not in the future, every event of the
-- batch that matches the target opens one silence interval, session metadata apart; no other event
-- opens one.
sequence-apply_target_events :
    (t : MonitorTarget) (c : TargetEventContext) (es : List ObservedEvent) (w : Watched)
    → is_terminal w.state.waits ≡ false
    → latest_progress_at w.state ≤ c.now
    → (apply_target_events t c es w).0.state.silence_sequence
      ≡ w.state.silence_sequence + count_if (counts t c) es
unfolding apply_target_events
sequence-apply_target_events t c es w running past = sequence-loop t c es w false (running, past)

-- `ObservedEvent.terminal` as `_observed` sets it in scripts/event_source.py.
abbrev pub is_end : EventKind → Bool
is_end turn_completed = true
is_end turn_aborted = true
is_end _ = false

abbrev pub HasEndFlag : ObservedEvent → Type 0
HasEndFlag e = e.terminal ≡ is_end e.kind

quiet-event :
    (k : EventKind) (t : MonitorTarget) (parent : Option String) (e : ObservedEvent) (id : String)
    → e.kind ≡ k
    → t.target_id ≡ some id
    → HasEndFlag e
    → event_is_turn_activity e (t ∷ []) parent ≡ false
    → event_matches_target e t parent ≡ true
    → (k ≡ session_metadata)
unfolding event_is_turn_activity event_is_target_progress is_progress terminal_matches
quiet-event session_metadata t parent e id h i v q m = refl
quiet-event turn_started t parent e id h i v q m = ground arith
quiet-event turn_completed t parent e id h i v q m = ground arith
quiet-event turn_aborted t parent e id h i v q m = ground arith
quiet-event item t parent e id h i v q m = ground arith
quiet-event delta t parent e id h i v q m = ground arith
quiet-event tool_started t parent e id h i v q m = ground arith
quiet-event tool_result t parent e id h i v q m = ground arith

-- Session metadata that matches the target changes nothing.
metadata-event :
    (k : EventKind) (w : Watched) (e : ObservedEvent) (now : ℕ)
    → k ≡ session_metadata
    → apply_event k w e now ≡ w
unfolding apply_event
metadata-event k w e now h = rw h

metadata-ends-not :
    (e : ObservedEvent) (t : MonitorTarget) (parent : Option String)
    → HasEndFlag e
    → e.kind ≡ session_metadata
    → terminal_matches e t parent ≡ false
unfolding terminal_matches
metadata-ends-not e t parent v meta =
    let flag : e.terminal ≡ false = v ∙ ap is_end meta in ground arith

-- No event of the batch is activity of the turn, and each carries its kind's end flag.
abbrev pub IsQuiet : MonitorTarget → Option String → ObservedEvent → Type 0
IsQuiet t parent e = HasEndFlag e × (event_is_turn_activity e (t ∷ []) parent ≡ false)

quiet-loop :
    (t : MonitorTarget) (c : TargetEventContext) (id : String) (es : List ObservedEvent)
    (w : Watched)
    → t.target_id ≡ some id
    → All (IsQuiet t c.parent_turn_id) es
    → apply_loop t c es w false ≡ (w, false)
unfolding apply_loop
quiet-loop t c id [] w i q = refl
quiet-loop t c id (e ∷ es) w i q = elim (Bool-cases (event_matches_target e t c.parent_turn_id)) [
  | inr miss ↦ rw miss (quiet-loop t c id es w i q.1)
  | inl hit ↦
      let meta = quiet-event e.kind t c.parent_turn_id e id refl i q.0.0 q.0.1 hit in
      rw
        (
          hit,
          metadata-event e.kind w e c.now meta,
          metadata-ends-not e t c.parent_turn_id q.0.0 meta,
        )
        (quiet-loop t c id es w i q.1)
]

-- For a child target, a batch without activity of the turn changes neither the detector nor the open
-- calls, and is not terminal.
quiet_batch_keeps_child :
    (t : MonitorTarget) (c : TargetEventContext) (id : String) (es : List ObservedEvent)
    (w : Watched)
    → t.target_id ≡ some id
    → All (IsQuiet t c.parent_turn_id) es
    → apply_target_events t c es w ≡ (w, false)
unfolding apply_target_events
quiet_batch_keeps_child t c id es w i q = quiet-loop t c id es w i q
