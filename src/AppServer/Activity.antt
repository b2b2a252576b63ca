-- ===== src/AppServer/Activity.antt =====
-- scripts/app_server_activity.py: what one client publishes of its connections. A call that
-- delivers an activity to the listener, or that raises, says so in its reply. A line of stderr
-- comes without its trailing blanks and cut to 500 characters.
pub mod Cases
pub mod Readers
pub mod Sequence
pub mod Closing
mod Tests
use codex_must_work.Prelude.{
  ℕ, ◌+◌, String, Bool, true, false, not, ◌&&◌, ◌||◌, Option, none, some, List, [], ◌∷◌, ◌++◌, ltb,
  ◌==◌, length, str_eq, is_none, if◌then◌else◌, get,
}
use codex_must_work.AppServer.{
  Members, no_members, get_member, string_member, object_member, or_else, turn_id,
}
use codex_must_work.AppServer.Events
use codex_must_work.AppServer.Events.{
  AppServerEventState, record_message, thread_for_turn, correlate_turn, bind_started_turn,
  take_response,
}
use codex_must_work.Manager.Outcomes.{TurnOutcome}
use codex_must_work.Registry.Routing.{
  AppServerActivityKind, AppServerActivity, turn_started, turn_progress, turn_completed,
  server_request, connection_closed,
}

pub record ActivityObservation : Type 0 where
  pub generation : ℕ
  pub sequence : ℕ
  pub activity : AppServerActivity

pub record AppServerActivityStream : Type 0 where
  pub events : AppServerEventState
  pub stderr : List String
  pub observations : List ActivityObservation
  pub sequence : ℕ
  pub generation : ℕ
  pub closed_error : Option String
  pub closed_activity_emitted : Bool

abbrev pub max_observations : ℕ
max_observations = 512

abbrev pub max_stderr : ℕ
max_stderr = 20

abbrev pub new_stream : AppServerActivityStream
new_stream = record {
  events = Events.init;
  stderr = [];
  observations = [];
  sequence = 0;
  generation = 0;
  closed_error = none;
  closed_activity_emitted = false;
}

abbrev pub rest_of {ℓ} : {A : Type ℓ} → List A → List A
rest_of [] = []
rest_of (x ∷ xs) = xs

-- `append` on a deque with this `maxlen`.
unfoldable pub append {ℓ} : {A : Type ℓ} → ℕ → List A → A → List A
append cap xs x =
    let longer = xs ++ (x ∷ []) in if ltb cap (length longer) then rest_of longer else longer

-- What a call raised, and the activity that it delivered to the listener.
pub record Reply : Type 0 where
  pub raised : Option String
  pub delivered : Option AppServerActivity

abbrev pub quiet : Reply
quiet = record { raised = none; delivered = none }

abbrev pub raises : Option String → Reply
raises failure = record { raised = failure; delivered = none }

abbrev pub delivers : Option AppServerActivity → Reply
delivers activity = record { raised = none; delivered = activity }

abbrev pub Replied : Type 0
Replied = Reply × AppServerActivityStream

abbrev pub activity_of :
    AppServerActivityKind → Option String → Option String → Option TurnOutcome → AppServerActivity
activity_of kind thread turn outcome = record {
  kind = kind;
  thread_id = thread;
  turn_id = turn;
  outcome = outcome;
}

-- `reset`
unfoldable pub reset : AppServerActivityStream → AppServerActivityStream
reset s = record s {
  generation = s.generation + 1;
  events = Events.init;
  stderr = [];
  closed_error = none;
  closed_activity_emitted = false;
}

-- `_publish`
unfoldable pub publish : AppServerActivity → AppServerActivityStream → AppServerActivityStream
unfolding append
publish activity s = record s {
  sequence = s.sequence + 1;
  observations =
      append max_observations s.observations
        (record { generation = s.generation; sequence = s.sequence + 1; activity = activity });
}

-- `_is_response`
unfoldable pub is_response : Members → Bool
unfolding get_member
is_response message =
    not (is_none (get_member message "result")) || not (is_none (get_member message "error"))

-- `_thread_id`: with a `thread` object its answer is the last word.
unfoldable pub activity_thread : Members → Option String
unfolding string_member object_member
activity_thread params =
    or_else (or_else (string_member params "threadId") (string_member params "conversationId"))
      (elim (object_member params "thread") [
        | some thread ↦ string_member thread "id"
        | none ↦ elim (object_member params "turn") [
          | some turn ↦
              or_else (string_member turn "threadId") (string_member turn "conversationId")
          | none ↦ none
        ]
      ])

-- The activity of a notification about a turn.
unfoldable pub turn_activity :
    String → Option String → String → AppServerEventState → AppServerActivity
unfolding get
turn_activity method thread turn e =
    if str_eq method "turn/started"
    then activity_of turn_started thread (some turn) none
    else if str_eq method "turn/completed"
    then activity_of turn_completed thread (some turn) (get e.turn_outcomes turn)
    else activity_of turn_progress thread (some turn) none

-- The thread of the message, or the one with which the turn is correlated.
unfoldable pub owner_thread :
    ℕ → Option String → String → AppServerEventState → Option String × AppServerEventState
owner_thread now (some thread) turn e = (some thread, e)
owner_thread now none turn e = thread_for_turn now turn e

unfoldable pub classify_notice :
    ℕ → String → Members → AppServerEventState → Option AppServerActivity × AppServerEventState
unfolding owner_thread turn_activity activity_thread
classify_notice now method params e = elim (turn_id params) [
  | none ↦ (none, e)
  | some turn ↦
      (let (thread, live) = owner_thread now (activity_thread params) turn e in
        (some (turn_activity method thread turn live), live))
]

-- `_classify`, at the time of the clock; it may let correlations expire.
unfoldable pub classify :
    ℕ → Members → AppServerEventState → Option AppServerActivity × AppServerEventState
unfolding classify_notice activity_thread is_response string_member object_member
classify now message e = elim (string_member message "method") [
  | none ↦ (none, e)
  | some method ↦
      (let params = object_member message "params" in
        let ownership : Members = elim params [ none ↦ no_members | some p ↦ p ] in
        if not (is_none (string_member message "id")) && not (is_response message)
        then (
          some (activity_of server_request (activity_thread ownership) (turn_id ownership) none),
          e,
        )
        else elim params [ none ↦ (none, e) | some p ↦ classify_notice now method p e ])
]

-- `if activity is not None: self._publish(activity)`
unfoldable pub publish_any :
    Option AppServerActivity → AppServerActivityStream → AppServerActivityStream
unfolding publish
publish_any none s = s
publish_any (some activity) s = publish activity s

-- `_record_current`, with the times at which the message is recorded and classified.
unfoldable pub record_current : ℕ → ℕ → Members → ℕ → AppServerActivityStream → Replied
unfolding classify publish_any
record_current now later message generation s =
    let (failure, recorded) = record_message now message s.events in
    let (activity, live) = classify later message recorded in
    if not (generation == s.generation)
    then (quiet, s)
    else if not (is_none failure)
    then (raises failure, record s { events = recorded })
    else (delivers activity, publish_any activity (record s { events = live }))

-- `mark_closed`, for the generation given or the current one.
unfoldable pub mark_closed : String → Option ℕ → AppServerActivityStream → Replied
unfolding publish
mark_closed reason generation s =
    let target : ℕ = elim generation [ none ↦ s.generation | some g ↦ g ] in
    let lost = activity_of connection_closed none none none in
    if not (target == s.generation) || s.closed_activity_emitted then (quiet, s) else (
      delivers (some lost),
      publish lost (record s { closed_error = some reason; closed_activity_emitted = true }),
    )

-- One line of `read_stderr`.
unfoldable pub read_stderr_line : String → ℕ → AppServerActivityStream → AppServerActivityStream
unfolding append
read_stderr_line line generation s =
    if generation == s.generation then record s { stderr = append max_stderr s.stderr line } else s

unfoldable pub first_after : ℕ → List ActivityObservation → Option ActivityObservation
first_after sequence [] = none
first_after sequence (o ∷ os) = if ltb sequence o.sequence then some o else first_after sequence os

-- `_after`: the oldest retained observation that is newer.
unfoldable pub after : ℕ → AppServerActivityStream → Option ActivityObservation
unfolding first_after
after sequence s = first_after sequence s.observations

-- The calls that threads make on one stream, each under its lock. The pipe readers name the
-- generation for which they were started.
pub data StreamCall : Type 0 where
  resets : StreamCall
  records : ℕ → ℕ → Members → StreamCall
  stdout_line : ℕ → ℕ → Members → ℕ → StreamCall
  stderr_line : String → ℕ → StreamCall
  stdout_end : String → ℕ → StreamCall
  marks_closed : String → StreamCall
  correlates : ℕ → String → String → StreamCall
  binds : ℕ → String → String → StreamCall
  takes : String → StreamCall

unfoldable pub call : AppServerActivityStream → StreamCall → Replied
unfolding reset record_current mark_closed read_stderr_line
call s resets = (quiet, reset s)
call s (records now later message) = record_current now later message s.generation s
call s (stdout_line now later message g) = record_current now later message g s
call s (stderr_line line g) = (quiet, read_stderr_line line g s)
call s (stdout_end reason g) = mark_closed reason (some g) s
call s (marks_closed reason) = mark_closed reason none s
call s (correlates now thread turn) =
    let (failure, live) = correlate_turn now thread turn s.events in
    (raises failure, record s { events = live })
call s (binds now thread turn) =
    let (bound, (failure, live)) = bind_started_turn now thread turn s.events in
    (raises failure, record s { events = live })
call s (takes id) = (quiet, record s { events = (take_response id s.events).1 })

abbrev pub deliver :
    Option AppServerActivity
    → List AppServerActivity × AppServerActivityStream
    → List AppServerActivity × AppServerActivityStream
deliver none (delivered, final) = (delivered, final)
deliver (some a) (delivered, final) = (a ∷ delivered, final)

-- The activities that the calls deliver, in their order, and the stream that they leave.
unfoldable pub run :
    AppServerActivityStream → List StreamCall → List AppServerActivity × AppServerActivityStream
unfolding call
run s [] = ([], s)
run s (c ∷ cs) = deliver (call s c).0.delivered (run (call s c).1 cs)
