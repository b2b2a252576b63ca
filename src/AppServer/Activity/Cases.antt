-- ===== src/AppServer/Activity/Cases.antt =====
-- What one call does to a stream: it publishes nothing, it publishes one activity, or it starts the
-- next generation.
use codex_must_work.Prelude.{
  ◌&&◌, ℕ, ◌+◌, ◌≡◌, refl, Bool, true, false, not, Option, none, some, ◌==◌, String, is_none,
  Bool-cases, Option-cases, inl, inr, str_eq,
}
use codex_must_work.AppServer.{Members, turn_id, string_member, object_member}
use codex_must_work.AppServer.Events.{AppServerEventState, record_message}
use codex_must_work.Registry.Routing.{AppServerActivity, connection_closed}
use codex_must_work.AppServer.Activity.{
  AppServerActivityStream, ActivityObservation, max_observations, append, StreamCall, resets,
  records, stdout_line, stderr_line, stdout_end, marks_closed, correlates, binds, takes, call,
  record_current, mark_closed, read_stderr_line, reset, publish_any, publish, is_response,
  owner_thread, activity_thread, classify, classify_notice, turn_activity,
}

abbrev pub is_closed : AppServerActivity → Bool
is_closed a = elim a.kind [ connection_closed ↦ true | _ ↦ false ]

abbrev pub observe : AppServerActivity → AppServerActivityStream → ActivityObservation
observe a s = record { generation = s.generation; sequence = s.sequence + 1; activity = a }

pub data Moves (s q : AppServerActivityStream) (delivered : Option AppServerActivity) : Type 0 where
  keeps :
      delivered ≡ none
      → q.observations ≡ s.observations
      → q.sequence ≡ s.sequence
      → q.generation ≡ s.generation
      → q.closed_activity_emitted ≡ s.closed_activity_emitted
      → Moves s q delivered
  publishes :
      (a : AppServerActivity)
      → delivered ≡ some a
      → q.observations ≡ append max_observations s.observations (observe a s)
      → q.sequence ≡ s.sequence + 1
      → q.generation ≡ s.generation
      → is_closed a ≡ false
      → q.closed_activity_emitted ≡ s.closed_activity_emitted
      → Moves s q delivered
  closes :
      (a : AppServerActivity)
      → delivered ≡ some a
      → q.observations ≡ append max_observations s.observations (observe a s)
      → q.sequence ≡ s.sequence + 1
      → q.generation ≡ s.generation
      → s.closed_activity_emitted ≡ false
      → q.closed_activity_emitted ≡ true
      → Moves s q delivered
  renews :
      delivered ≡ none
      → q.observations ≡ s.observations
      → q.sequence ≡ s.sequence
      → q.generation ≡ s.generation + 1
      → Moves s q delivered

turn_activity_open :
    (method : String) (thread : Option String) (turn : String) (e : AppServerEventState)
    → is_closed (turn_activity method thread turn e) ≡ false
unfolding turn_activity
turn_activity_open method thread turn e = elim (Bool-cases (str_eq method "turn/started")) [
  | inl started ↦ simp (started) refl
  | inr other ↦ elim (Bool-cases (str_eq method "turn/completed")) [
    | inl completed ↦ simp (other, completed) refl
    | inr progress ↦ simp (other, progress) refl
  ]
]

abbrev IsOpen : Option AppServerActivity → Type 0
IsOpen none = Unit
IsOpen (some a) = is_closed a ≡ false

classify_notice-IsOpen :
    (now : ℕ) (method : String) (params : Members) (e : AppServerEventState)
    → IsOpen (classify_notice now method params e).0
unfolding classify_notice
classify_notice-IsOpen now method params e = elim (Option-cases (turn_id params)) [
  | inl missing ↦ simp (classify_notice, missing) tt
  | inr (turn, found) ↦
      simp (classify_notice, found)
        (turn_activity_open method _ turn (owner_thread now (activity_thread params) turn e).1)
]

-- A message is never classified as a lost connection.
pub classify-IsOpen :
    (now : ℕ) (message : Members) (e : AppServerEventState) → IsOpen (classify now message e).0
unfolding classify
classify-IsOpen now message e = elim (Option-cases (string_member message "method")) [
  | inl missing ↦ simp (classify, missing) tt
  | inr (method, found) ↦
      elim (Bool-cases (not (is_none (string_member message "id")) && not (is_response message))) [
        | inl asks ↦ simp (classify, found) (simp asks refl)
        | inr tells ↦ elim (Option-cases (object_member message "params")) [
          | inl none_given ↦ simp (classify, found, none_given) (simp tells tt)
          | inr (params, given) ↦
              simp (classify, found, given)
                (simp tells (classify_notice-IsOpen now method params e))
        ]
      ]
]

publish_any-Moves :
    (a : Option AppServerActivity) (e : AppServerEventState) (s : AppServerActivityStream)
    → IsOpen a
    → Moves s (publish_any a (record s { events = e })) a
unfolding publish_any publish
publish_any-Moves none e s open_ = keeps refl refl refl refl refl
publish_any-Moves (some a) e s open_ = publishes a refl refl refl refl open_ refl

record_current-Moves :
    (now later : ℕ) (message : Members) (g : ℕ) (s : AppServerActivityStream)
    → Moves s
        (record_current now later message g s).1
        (record_current now later message g s).0.delivered
unfolding record_current
record_current-Moves now later message g s = elim (Bool-cases (g == s.generation)) [
  | inr old ↦ simp (old) (keeps refl refl refl refl refl)
  | inl now' ↦ elim (Bool-cases (is_none (record_message now message s.events).0)) [
    | inr failed ↦ simp (now', failed) (keeps refl refl refl refl refl)
    | inl fine ↦
        simp (now', fine)
          (publish_any-Moves _ _ s
            (classify-IsOpen later message (record_message now message s.events).1))
  ]
]

mark_closed-Moves :
    (reason : String) (g : Option ℕ) (s : AppServerActivityStream)
    → Moves s (mark_closed reason g s).1 (mark_closed reason g s).0.delivered
unfolding mark_closed publish
mark_closed-Moves reason g s =
    elim (Bool-cases (elim g [ none ↦ s.generation | some h ↦ h ] == s.generation)) [
      | inr old ↦ simp (old) (keeps refl refl refl refl refl)
      | inl now ↦ elim (Bool-cases s.closed_activity_emitted) [
        | inl emitted ↦ simp (now, emitted) (keeps refl refl refl refl refl)
        | inr not_yet ↦ simp (now, not_yet) (closes _ refl refl refl refl not_yet refl)
      ]
    ]

pub call-Moves :
    (s : AppServerActivityStream) (c : StreamCall) → Moves s (call s c).1 (call s c).0.delivered
unfolding call reset read_stderr_line
call-Moves s resets = renews refl refl refl refl
call-Moves s (records now later message) = record_current-Moves now later message s.generation s
call-Moves s (stdout_line now later message g) = record_current-Moves now later message g s
call-Moves s (stderr_line line g) = elim (Bool-cases (g == s.generation)) [
  | inl same ↦ simp (same) (keeps refl refl refl refl refl)
  | inr old ↦ simp (old) (keeps refl refl refl refl refl)
]
call-Moves s (stdout_end reason g) = mark_closed-Moves reason (some g) s
call-Moves s (marks_closed reason) = mark_closed-Moves reason none s
call-Moves s (correlates now thread turn) = keeps refl refl refl refl refl
call-Moves s (binds now thread turn) = keeps refl refl refl refl refl
call-Moves s (takes id) = keeps refl refl refl refl refl
