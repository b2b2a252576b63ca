-- ===== src/Manager/Engine.antt =====
-- scripts/manager_engine.py with scripts/manager_shutdown.py, the allowlist of
-- scripts/manager_failure.py and the policy of scripts/goal_policy.py: one tick of the resident manager,
-- composed of its decision, the outcome of the owned turn, the interrupt controller and the writes of
-- the runtime file. The policy refuses every goal companion before a goal guard is made, so the engine
-- has no guard, and the code behind `require_goal_guard` is never reached. What the app server answers
-- during the tick is an argument; a request of an interrupt or a cleanup does not raise.
pub mod Handoff
pub mod Interrupting
pub mod Restart
mod Tests
use codex_must_work.Prelude.{
  ℕ, ◌+◌, String, Bool, true, false, not, ◌&&◌, ◌||◌, Option, none, some, List, [], ◌∷◌, ◌++◌, map,
  ltb, opt_eq, str_eq, is_none, if◌then◌else◌, Result, ok, err, ◌>>◌, fail_if,
}
use codex_must_work.Manager.{Values}
use codex_must_work.Manager.Ownership.{
  mark_manager_ready, record_pending_turn, record_turn_started, mark_pending_turn_timed_out,
  record_manager_failure,
}
use codex_must_work.Manager.Decision.{
  stop, wait, start, resume_goal, interrupt, fail_closed, ManagerView, ManagerDecision,
  decide_manager_action,
}
use codex_must_work.Manager.Outcomes.{TurnOutcome, resolve_turn_outcome, loaded}
use codex_must_work.Manager.Interrupt.{
  Answers, Request, interrupts, cleans_terminals, execute, expire_pending,
  interrupt_unowned_accepted,
}

-- The memory of the engine between ticks.
pub record ManagerEngine : Type 0 where
  pub thread_loaded : Bool
  pub restart_prompt_pending : Bool
  pub accepted_claims : List (String × String)

abbrev pub new_engine : ManagerEngine
new_engine = record { thread_loaded = false; restart_prompt_pending = false; accepted_claims = [] }

-- What the app server and the clocks say during one tick.
pub record Server : Type 0 where
  pub pending_server_request : Option String
  pub active_turn : Option String
  pub turn_outcome : String → Option TurnOutcome
  pub start : Result (Unit {0})
  pub resume_thread : Result (Unit {0})
  -- The turn id of the response to `turn/start`, which is never empty.
  pub start_turn : Result (Option String)
  pub wait_turn_started : Bool
  pub wait_turn_completed : Bool
  pub monotonic : ℕ
  pub now : ℕ
  pub interrupting : Answers

pub data EngineRequest : Type 0 where
  resumes_thread : EngineRequest
  starts_turn : Bool → EngineRequest
  controls : Request → EngineRequest

-- Whether to keep running, or what is raised; the engine and the file after it; the requests sent.
pub record Tick : Type 0 where
  pub keep_running : Result Bool
  pub engine : ManagerEngine
  pub file : Option Values
  pub requests : List EngineRequest

abbrev pub pending_grace : ℕ
pending_grace = 60000000

-- `_ALLOWED`
abbrev pub allowed : List String
allowed =
    "activation_turn_aborted" ∷ "activation_turn_superseded" ∷ "active_turn_mismatch"
    ∷ "app_server_failed" ∷ "goal_not_resumable" ∷ "goal_identity_changed" ∷ "goal_identity_invalid"
    ∷ "goal_identity_missing" ∷ "goal_handoff_changed" ∷ "goal_missing" ∷ "goal_resume_timeout"
    ∷ "goal_status_invalid" ∷ "goal_status_mismatch" ∷ "goal_turn_source_unverified"
    ∷ "interrupt_timeout" ∷ "interrupt_claim_expired" ∷ "interrupt_claim_mismatch" ∷ "turn_failed"
    ∷ "turn_status_invalid" ∷ "turn_interrupted_external" ∷ "goal_blocked" ∷ "goal_usage_limited"
    ∷ "goal_budget_limited" ∷ "goal_companion_atomic_update_unavailable" ∷ "restart_turn_not_owned"
    ∷ "server_request_unhandled" ∷ "start_timeout" ∷ "completed_turn_not_owned"
    ∷ "handoff_state_changed" ∷ "managed_mode_not_enabled" ∷ "manager_pid_invalid"
    ∷ "managed_turn_id_missing" ∷ "restart_request_changed" ∷ "restart_request_not_claimed"
    ∷ "runtime_name_invalid" ∷ "trusted_codex_executable_changed"
    ∷ "trusted_codex_executable_missing" ∷ "trusted_codex_home_invalid" ∷ "unexpected_active_turn"
    ∷ []

abbrev pub listed : String → List String → Bool
listed reason [] = false
listed reason (r ∷ reasons) = str_eq r reason || listed reason reasons

-- `validate_manager_failure`
unfoldable pub is_allowed : String → Bool
is_allowed reason = listed reason allowed

-- `enforce_goal_companion_policy`
unfoldable pub enforce_goal_companion_policy : Bool → Result (Unit {0})
enforce_goal_companion_policy requested =
    fail_if requested "goal_companion_atomic_update_unavailable"

-- The view that `load_manager_runtime` makes of the file.
abbrev pub view_of : Values → ManagerView
view_of v = record {
  enabled = v.enabled && v.managed_mode;
  handoff_requested = v.handoff_requested;
  managed_turn_id = v.managed_turn_id;
  restart_request_turn_id = elim v.restart_request [ none ↦ none | some r ↦ some r.turn_id ];
  goal_companion = v.goal_companion;
}

abbrev pub ticked : Result Bool → ManagerEngine → Values → List EngineRequest → Tick
ticked keep_running engine v requests = record {
  keep_running = keep_running;
  engine = engine;
  file = some v;
  requests = requests;
}

-- `initialize`, up to readiness; where it raises, the close has no guard to restore.
unfoldable pub initialize : Server → ℕ → Values → Result Values
unfolding enforce_goal_companion_policy mark_manager_ready
initialize server pid v = do
  enforce_goal_companion_policy v.goal_companion
  server.start
  mark_manager_ready pid v

-- `_fail`, on the file `v`, after the requests already sent; `record_manager_failure` raises for a
-- reason that is not on its list.
unfoldable pub fail : String → ManagerEngine → Values → List EngineRequest → Tick
unfolding is_allowed record_manager_failure
fail reason engine v requests =
    if is_allowed reason
    then ticked (ok false) engine (record_manager_failure reason v) requests
    else ticked (err "manager_failure_reason_invalid") engine v requests

-- The end of the session: `disable_session`.
abbrev pub disabled : ManagerEngine → List EngineRequest → Tick
disabled engine requests = record {
  keep_running = ok false;
  engine = engine;
  file = none;
  requests = requests;
}

-- A write of the file, and what follows it; where it raises, so does the tick.
abbrev pub writing :
    Result Values → ManagerEngine → Values → List EngineRequest → (Values → Tick) → Tick
writing (ok w) engine v requests next = next w
writing (err reason) engine v requests next = ticked (err reason) engine v requests

-- `_reconcile_pending_turn`, for the pending turn.
unfoldable pub reconcile_pending_turn : Server → ManagerEngine → String → Values → Tick
unfolding fail expire_pending record_turn_started
reconcile_pending_turn server engine turn v =
    let (expired, requests) = expire_pending turn v in
    if elim v.pending_turn_timed_out_at [
      | none ↦ false
      | some at ↦ ltb (at + pending_grace) server.monotonic
    ]
    then fail "start_timeout" engine expired (map controls requests)
    else if opt_eq server.active_turn (some turn) || not (is_none (server.turn_outcome turn))
    then writing (record_turn_started turn server.now v) engine v []
        (λ w. ticked (ok true) (record engine { restart_prompt_pending = false }) w [])
    else ticked (ok true) engine v []

-- The end of the owned turn.
unfoldable pub resolve_owned : Server → ManagerEngine → String → TurnOutcome → Values → Tick
unfolding fail resolve_turn_outcome
resolve_owned server engine turn outcome v =
    elim (resolve_turn_outcome v none turn outcome server.now (loaded v 0)) [
      | err reason ↦ ticked (err reason) engine v []
      | ok (r, s) ↦ elim r.failure_reason [
        | some reason ↦ fail reason engine v []
        | none ↦ record {
          keep_running = ok r.keep_running;
          engine = record engine { restart_prompt_pending = r.restart_prompt_pending };
          file = s.file;
          requests = [];
        }
      ]
    ]

-- `handle_shutdown`, without a guard.
unfoldable pub handle_shutdown : Server → ManagerEngine → Bool → Values → Tick
unfolding fail
handle_shutdown server engine cleanup v = elim v.managed_turn_id [
  | none ↦ disabled engine []
  | some turn ↦
      if not v.shutdown_interrupt
      then ticked (ok true) engine v []
      else if not (opt_eq server.active_turn (some turn))
      then fail "active_turn_mismatch" engine v []
      else if v.goal_companion
      then fail "goal_identity_missing" engine v []
      else if not server.wait_turn_completed
      then fail "interrupt_timeout" engine v (controls (interrupts turn) ∷ [])
      else disabled engine
          (controls (interrupts turn) ∷ (if cleanup then controls cleans_terminals ∷ [] else []))
]

-- `_recover_accepted_turn` after `record_pending_turn` has raised: the tick raises the same.
unfoldable pub recover_accepted_turn :
    String → ManagerEngine → String → Values → List EngineRequest → Tick
unfolding interrupt_unowned_accepted
recover_accepted_turn reason engine turn v requests =
    let (claims, sent) = interrupt_unowned_accepted v.session_id turn engine.accepted_claims in
    if opt_eq v.pending_turn_id (some turn) || opt_eq v.managed_turn_id (some turn)
    then ticked (err reason) engine v requests
    else ticked (err reason) (record engine { accepted_claims = claims }) v
        (requests ++ map controls sent)

-- `_start_turn` once the app server has accepted the turn.
unfoldable pub accept_turn : Server → ManagerEngine → String → Values → List EngineRequest → Tick
unfolding recover_accepted_turn record_pending_turn record_turn_started mark_pending_turn_timed_out
accept_turn server engine turn v requests = elim (record_pending_turn turn v) [
  | err reason ↦ recover_accepted_turn reason engine turn v requests
  | ok pending ↦
      if not server.wait_turn_started
      then writing (mark_pending_turn_timed_out turn server.monotonic pending) engine pending
          requests (λ w. ticked (ok true) engine w requests)
      else writing (record_turn_started turn server.now pending) engine pending requests
          (λ w. ticked (ok true) (record engine { restart_prompt_pending = false }) w requests)
]

-- `_start_turn` with the thread loaded.
unfoldable pub request_turn : Server → ManagerEngine → Values → List EngineRequest → Tick
unfolding fail accept_turn
request_turn server engine v requests =
    let sent = requests ++ (starts_turn engine.restart_prompt_pending ∷ []) in
    elim server.start_turn [
      | err reason ↦ ticked (err reason) engine v sent
      | ok none ↦ fail "start_timeout" engine v sent
      | ok (some turn) ↦ accept_turn server engine turn v sent
    ]

-- `_start_turn`, with `_load_thread`.
unfoldable pub start_turn : Server → ManagerEngine → Values → Tick
unfolding request_turn
start_turn server engine v =
    if engine.thread_loaded then request_turn server engine v [] else elim server.resume_thread [
      | err reason ↦ ticked (err reason) engine v (resumes_thread ∷ [])
      | ok done ↦
          request_turn server (record engine { thread_loaded = true }) v (resumes_thread ∷ [])
    ]

-- `_interrupt_turn`, without a guard.
unfoldable pub interrupt_turn : Server → ManagerEngine → Bool → String → Values → Tick
unfolding fail execute
interrupt_turn server engine cleanup turn v =
    let done = execute cleanup v.restart_request v.restart_claimed turn server.interrupting v in
    let requests = map controls done.requests in
    if v.goal_companion then fail "goal_identity_missing" engine v [] else elim done.result [
      | err reason ↦ ticked (err reason) engine done.file requests
      | ok r ↦ elim r.failure_reason [
        | some reason ↦ fail reason engine done.file requests
        | none ↦
            ticked (ok true)
              (record engine {
                restart_prompt_pending = r.restarted || engine.restart_prompt_pending;
              })
              done.file requests
      ]
    ]

-- `_execute_decision`, for the decision taken; a goal is never resumed, for want of a guard.
unfoldable pub execute_decision : Server → ManagerEngine → Bool → ManagerDecision → Values → Tick
unfolding start_turn interrupt_turn fail
execute_decision server engine cleanup d v = elim d.action [
  | start ↦ start_turn server engine v
  | resume_goal ↦ fail "goal_identity_missing" engine v []
  | interrupt ↦ elim d.turn_id [
    | none ↦ fail "app_server_failed" engine v []
    | some turn ↦ interrupt_turn server engine cleanup turn v
  ]
  | fail_closed ↦
      fail
        (elim d.reason_code [
          | none ↦ "app_server_failed"
          | some reason ↦ if str_eq reason "" then "app_server_failed" else reason
        ])
        engine v []
  | wait ↦ ticked (ok true) engine v []
  | stop ↦ ticked (ok false) engine v []
]

-- The outcome of the owned turn, if a turn is owned and has one.
abbrev pub owned_outcome : Server → Values → Option (String × TurnOutcome)
owned_outcome server v = elim v.managed_turn_id [
  | none ↦ none
  | some turn ↦ elim (server.turn_outcome turn) [
    | none ↦ none
    | some outcome ↦ some (turn, outcome)
  ]
]

-- `tick`, on the file as it is loaded; `cleanup` is the message preset.
unfoldable pub tick : Server → ManagerEngine → Bool → Values → Tick
unfolding fail reconcile_pending_turn resolve_owned handle_shutdown execute_decision
    decide_manager_action
tick server engine cleanup v =
    let idle =
      if v.shutdown_requested
      then handle_shutdown server engine cleanup v
      else execute_decision server engine cleanup
          (decide_manager_action (view_of v) server.active_turn) v in
    if not (is_none server.pending_server_request)
    then fail "server_request_unhandled" engine v []
    else elim v.pending_turn_id [
      | some turn ↦ reconcile_pending_turn server engine turn v
      | none ↦ elim (owned_outcome server v) [
        | some (turn, outcome) ↦ resolve_owned server engine turn outcome v
        | none ↦ idle
      ]
    ]
