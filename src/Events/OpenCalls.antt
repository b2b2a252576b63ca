-- ===== src/Events/OpenCalls.antt =====
-- The set of open tool calls: its laws, and what one event does to it.
use codex_must_work.Prelude.{
  ℕ, String, ◌≡◌, ◌≢◌, Bool, false, not, ◌&&◌, ◌||◌, Option, none, some, List, [], ◌∷◌, arith,
  str_eq, eq_iff, if◌then◌else◌,
}
use codex_must_work.Events.{
  EventKind, session_metadata, turn_started, turn_completed, turn_aborted, item, delta,
  tool_started, tool_result, ObservedEvent, MonitorTarget, TargetEventContext, Watched, call_key,
  contains, add_call, discard_call, apply_event, apply_loop, apply_target_events, pop_single,
  terminal_matches,
}

-- No call id stands twice in the list.
abbrev pub NoRepeats : List String → Type 0
NoRepeats [] = Unit {0}
NoRepeats (x ∷ xs) = (contains x xs ≡ false) × NoRepeats xs

add_call-NoRepeats :
    (x : String) (calls : List String) → NoRepeats calls → NoRepeats (add_call x calls)
unfolding add_call
add_call-NoRepeats x calls v = ground arith

contains-add_call :
    (j x : String) (calls : List String)
    → contains j (add_call x calls) ≡ (str_eq x j || contains j calls)
unfolding add_call
contains-add_call j x calls = ground (arith, eq_iff x j)

contains-discard_call :
    (j x : String) (calls : List String)
    → NoRepeats calls
    → contains j (discard_call x calls) ≡ (not (str_eq x j) && contains j calls)
unfolding discard_call
contains-discard_call j x [] v = ground arith
contains-discard_call j x (y ∷ ys) v =
    ground (arith, eq_iff x j, eq_iff y x, eq_iff y j, contains-discard_call j x ys v.1)

discard_call-NoRepeats :
    (x : String) (calls : List String) → NoRepeats calls → NoRepeats (discard_call x calls)
unfolding discard_call
discard_call-NoRepeats x [] v = tt
discard_call-NoRepeats x (y ∷ ys) v =
    ground (arith, discard_call-NoRepeats x ys v.1, contains-discard_call y x ys v.1)

pop_single-NoRepeats : (calls : List String) → NoRepeats calls → NoRepeats (pop_single calls)
unfolding pop_single
pop_single-NoRepeats [] v = v
pop_single-NoRepeats (x ∷ []) v = tt
pop_single-NoRepeats (x ∷ y ∷ ys) v = v

apply_event-NoRepeats :
    (k : EventKind) (w : Watched) (e : ObservedEvent) (now : ℕ)
    → NoRepeats w.open_calls
    → NoRepeats (apply_event k w e now).open_calls
unfolding apply_event
apply_event-NoRepeats tool_started w e now v = by_key (call_key e)
  where
    by_key :
        (o : Option String)
        → NoRepeats (elim o [
          | none ↦ w.open_calls
          | some id ↦ if str_eq id "" then w.open_calls else add_call id w.open_calls
        ])
    by_key none = v
    by_key (some id) = ground (arith, add_call-NoRepeats id w.open_calls v)
apply_event-NoRepeats tool_result w e now v = by_key (call_key e)
  where
    by_key :
        (o : Option String)
        → NoRepeats (elim o [
          | none ↦ if e.fallback_tool_result then pop_single w.open_calls else w.open_calls
          | some id ↦ discard_call id w.open_calls
        ])
    by_key none = ground (arith, pop_single-NoRepeats w.open_calls v)
    by_key (some id) = discard_call-NoRepeats id w.open_calls v
apply_event-NoRepeats session_metadata w e now v = v
apply_event-NoRepeats turn_started w e now v = v
apply_event-NoRepeats turn_completed w e now v = v
apply_event-NoRepeats turn_aborted w e now v = v
apply_event-NoRepeats item w e now v = v
apply_event-NoRepeats delta w e now v = v

apply_loop-NoRepeats :
    (t : MonitorTarget) (c : TargetEventContext) (es : List ObservedEvent) (w : Watched) (b : Bool)
    → NoRepeats w.open_calls
    → NoRepeats (apply_loop t c es w b).0.open_calls
unfolding apply_loop
apply_loop-NoRepeats t c [] w b v = v
apply_loop-NoRepeats t c (e ∷ es) w b v = ground (
  arith,
  apply_loop-NoRepeats t c es w b v,
  apply_loop-NoRepeats t c es (apply_event e.kind w e c.now)
      (b || terminal_matches e t c.parent_turn_id) (apply_event-NoRepeats e.kind w e c.now v),
)

-- A batch keeps the open calls a set: no id stands twice, so `len(open_calls)` counts distinct calls.
apply_target_events-NoRepeats :
    (t : MonitorTarget) (c : TargetEventContext) (es : List ObservedEvent) (w : Watched)
    → NoRepeats w.open_calls
    → NoRepeats (apply_target_events t c es w).0.open_calls
unfolding apply_target_events
apply_target_events-NoRepeats t c es w v = apply_loop-NoRepeats t c es w false v

-- With a call id that is not empty, a tool start opens exactly that call and a tool result closes
-- exactly that call; every other call stays open or closed.
tool_calls_exact :
    (w : Watched) (e : ObservedEvent) (now : ℕ) (id j : String)
    → NoRepeats w.open_calls
    → e.call_id ≡ some id
    → id ≢ ""
    → (contains j (apply_event tool_started w e now).open_calls
        ≡ (str_eq id j || contains j w.open_calls))
      × (contains j (apply_event tool_result w e now).open_calls
          ≡ (not (str_eq id j) && contains j w.open_calls))
unfolding apply_event call_key
tool_calls_exact w e now id j v h ne = (
  ground (arith, eq_iff id "", contains-add_call j id w.open_calls),
  ground (arith, eq_iff id "", contains-discard_call j id w.open_calls v),
)
