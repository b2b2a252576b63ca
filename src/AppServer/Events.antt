-- ===== src/AppServer/Events.antt =====
-- `AppServerEventState` of scripts/app_server_protocol.py, the state of one resident connection. Times
-- are in microseconds of the connection's clock.
pub mod Cases
pub mod Retention
pub mod Bounds
pub mod Owners
use codex_must_work.Prelude.{
  ℕ, ◌+◌, String, Bool, true, false, not, ◌&&◌, ◌||◌, Option, none, some, List, [], ◌∷◌, ◌++◌, ltb,
  leb, length, keep, str_eq, opt_eq, is_none, if◌then◌else◌, Dict, get, put, remove, has, Result,
  ok, err, ◌>>=◌,
}
use codex_must_work.AppServer.{
  Members, object_member, string_member, thread_id, turn_id, read_outcome, get_member,
}
use codex_must_work.Manager.Outcomes.{TurnOutcome}

abbrev pub max_retained_turn_outcomes : ℕ
max_retained_turn_outcomes = 512

abbrev pub max_turn_correlations : ℕ
max_turn_correlations = 2048

abbrev pub correlation_expiry : ℕ
correlation_expiry = 600000000

pub record TurnCorrelation : Type 0 where
  pub thread : String
  pub observed_at : ℕ
  pub live : Bool

-- A set is a dict to the unit; the deque of completed turns is a list, oldest first.
pub record AppServerEventState : Type 0 where
  pub responses : Dict Members
  pub active_turns : Dict String
  pub latest_started_turns : Dict String
  pub started_turns : Dict (Unit {0})
  pub turn_outcomes : Dict TurnOutcome
  pub completed_turns : List String
  pub turn_correlations : Dict TurnCorrelation
  pub pending_server_request : Option String

abbrev pub init : AppServerEventState
init = record {
  responses = [];
  active_turns = [];
  latest_started_turns = [];
  started_turns = [];
  turn_outcomes = [];
  completed_turns = [];
  turn_correlations = [];
  pending_server_request = none;
}

-- `not correlation.live and now - correlation.observed_at > _CORRELATION_EXPIRY_SECONDS`
abbrev pub is_expired : ℕ → String × TurnCorrelation → Bool
is_expired now (turn, c) = not c.live && ltb (c.observed_at + correlation_expiry) now

unfoldable pub expire : String → TurnCorrelation → AppServerEventState → AppServerEventState
unfolding remove get
expire turn c s = record s {
  turn_correlations = remove turn s.turn_correlations;
  started_turns = remove turn s.started_turns;
  latest_started_turns =
      if opt_eq (get s.latest_started_turns c.thread) (some turn)
      then remove c.thread s.latest_started_turns
      else s.latest_started_turns;
}

unfoldable pub expire_each : Dict TurnCorrelation → AppServerEventState → AppServerEventState
unfolding expire
expire_each [] s = s
expire_each ((turn, c) ∷ expired) s = expire_each expired (expire turn c s)

-- `_expire_correlations`
unfoldable pub expire_correlations : ℕ → AppServerEventState → AppServerEventState
unfolding expire_each
expire_correlations now s = expire_each (keep (is_expired now) s.turn_correlations) s

-- An exception, if the call raised one, and the state that it leaves.
abbrev pub Outcome : Type 0
Outcome = Option String × AppServerEventState

-- `correlate_turn`, at the time of the clock.
unfoldable pub correlate_turn : ℕ → String → String → AppServerEventState → Outcome
unfolding expire_correlations put has
correlate_turn now thread turn s =
    let live = expire_correlations now s in
    if not (has live.turn_correlations turn)
      && leb max_turn_correlations (length live.turn_correlations)
    then (some "app_server_correlation_capacity", live)
    else (
      none,
      record live {
        turn_correlations =
            put turn (record { thread = thread; observed_at = now; live = true })
              live.turn_correlations;
      },
    )

-- `active_turns[thread] = turn` and the same for the latest one.
unfoldable pub activate : String → String → AppServerEventState → AppServerEventState
unfolding put
activate thread turn s = record s {
  active_turns = put thread turn s.active_turns;
  latest_started_turns = put thread turn s.latest_started_turns;
}

-- `thread_for_turn`
unfoldable pub thread_for_turn :
    ℕ → String → AppServerEventState → Option String × AppServerEventState
unfolding expire_correlations get
thread_for_turn now turn s =
    let live = expire_correlations now s in
    (elim (get live.turn_correlations turn) [ none ↦ none | some c ↦ some c.thread ], live)

-- The oldest completed turn leaves.
unfoldable pub forget_oldest : AppServerEventState → List String → AppServerEventState
unfolding remove
forget_oldest s [] = s
forget_oldest s (oldest ∷ turns) = record s {
  completed_turns = turns;
  turn_outcomes = remove oldest s.turn_outcomes;
  started_turns = remove oldest s.started_turns;
}

-- `_remember_outcome`
unfoldable pub remember_outcome : String → TurnOutcome → AppServerEventState → AppServerEventState
unfolding forget_oldest put has
remember_outcome turn outcome s =
    let turns = s.completed_turns ++ (turn ∷ []) in
    let remembered = record s {
      turn_outcomes = put turn outcome s.turn_outcomes;
      completed_turns = turns;
    } in
    if has s.turn_outcomes turn
    then s
    else if ltb max_retained_turn_outcomes (length turns)
    then forget_oldest remembered turns
    else remembered

-- A turn that started: `turn/started` with its thread, if the message has one.
unfoldable pub record_started : ℕ → Option String → String → AppServerEventState → Outcome
unfolding correlate_turn activate put
record_started now thread turn s =
    let started = record s { started_turns = put turn tt s.started_turns } in
    elim thread [
      | none ↦ (none, started)
      | some t ↦
          (let (failure, correlated) = correlate_turn now t turn started in
            (failure, if is_none failure then activate t turn correlated else correlated))
    ]

-- The active turns without those of this turn.
unfoldable pub without_turn : String → Dict String → Dict String
without_turn turn active = keep (λ e. not (str_eq e.1 turn)) active

unfoldable pub close_active : Option String → String → Dict String → Dict String
unfolding without_turn remove get
close_active none turn active = without_turn turn active
close_active (some t) turn active =
    if opt_eq (get active t) (some turn) then remove t active else active

unfoldable pub close_correlation : ℕ → String → Dict TurnCorrelation → Dict TurnCorrelation
unfolding put get
close_correlation now turn correlations = elim (get correlations turn) [
  | none ↦ correlations
  | some c ↦ put turn (record { thread = c.thread; observed_at = now; live = false }) correlations
]

-- A turn that ended: `turn/completed`.
unfoldable pub record_completed :
    ℕ → Option String → String → TurnOutcome → AppServerEventState → AppServerEventState
unfolding remember_outcome close_active close_correlation
record_completed now thread turn outcome s = remember_outcome turn outcome (record s {
  active_turns = close_active thread turn s.active_turns;
  turn_correlations = close_correlation now turn s.turn_correlations;
})

unfoldable pub record_notice : ℕ → Option String → Option Members → AppServerEventState → Outcome
unfolding record_started record_completed
record_notice now (some method) (some params) s = elim (turn_id params) [
  | none ↦ (none, s)
  | some turn ↦
      if str_eq method "turn/started"
      then record_started now (thread_id params) turn s
      else if str_eq method "turn/completed"
      then (none, record_completed now (thread_id params) turn (read_outcome params) s)
      else (none, s)
]
record_notice now (some method) none s = (none, s)
record_notice now none params s = (none, s)

-- `record`, at the time of the clock.
unfoldable pub record_message : ℕ → Members → AppServerEventState → Outcome
unfolding record_notice put get_member
record_message now message s =
    let id = string_member message "id" in
    let method = string_member message "method" in
    let answers =
      not (is_none (get_member message "result")) || not (is_none (get_member message "error")) in
    let notice = record_notice now method (object_member message "params") s in
    elim id [
      | none ↦ notice
      | some i ↦
          if answers
          then (none, record s { responses = put i message s.responses })
          else if not (is_none method)
          then (none, record s { pending_server_request = method })
          else notice
    ]

-- `bind_started_turn`, with its answer where it does not raise.
unfoldable pub bind_started_turn : ℕ → String → String → AppServerEventState → Bool × Outcome
unfolding correlate_turn activate has
bind_started_turn now thread turn s =
    let (failure, correlated) = correlate_turn now thread turn s in
    let outcome : Bool × AppServerEventState =
      if has correlated.turn_outcomes turn
      then (true, correlated)
      else if not (has correlated.started_turns turn)
      then (false, correlated)
      else (true, activate thread turn correlated) in
    (outcome.0, (failure, if is_none failure then outcome.1 else correlated))

-- `take_response`
unfoldable pub take_response : String → AppServerEventState → Option Members × AppServerEventState
unfolding remove get
take_response id s = (get s.responses id, record s { responses = remove id s.responses })
