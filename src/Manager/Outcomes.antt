-- ===== src/Manager/Outcomes.antt =====
-- scripts/manager_outcome.py, with `classify_interrupt_claim` of scripts/manager_restart_guard.py: what
-- the manager does when the owned turn has ended. The file of the session is `some` of its values,
-- and `none` once the session is disabled. Dates are as in the values.
pub mod Resolution
use codex_must_work.Prelude.{
  ℕ, ◌+◌, String, Bool, true, false, not, Option, none, some, str_eq, is_none, if◌then◌else◌,
  Result, ok, err, ◌>>=◌,
}
use codex_must_work.Manager.{Values}
use codex_must_work.Manager.Ownership.{
  record_turn_finished, record_restart_performed, restart_claim_is_current,
}

-- `TurnOutcome` of scripts/app_server_protocol.py and `GoalStatus` of scripts/goal_control.py
pub data TurnOutcome : Type 0 where
  completed interrupted failed in_progress invalid : TurnOutcome

pub data GoalStatus : Type 0 where
  active paused blocked usage_limited budget_limited complete : GoalStatus

pub data InterruptClaimState : Type 0 where
  matched unclaimed expired mismatch : InterruptClaimState

pub record TurnResolution : Type 0 where
  pub keep_running : Bool
  pub restart_prompt_pending : Bool
  pub failure_reason : Option String

-- What the goal guard answers; `err` is a `GoalControlError`.
pub record GoalOutcomeGuard : Type 0 where
  pub status_after_turn : Result GoalStatus
  pub pause_for_interrupt : Result (Unit {0})

-- The values as the tick loaded them, the file as it stands, and the sessions completed.
pub record Session : Type 0 where
  pub file : Option Values
  pub completions : ℕ

-- `mutate_existing_state`: without a file nothing happens.
pub mutate : (Values → Result Values) → Session → Result Session
mutate f s = elim s.file [ none ↦ ok s | some v ↦ (do w ← f v; ok (record s { file = some w })) ]

pub disable_session : Session → Session
disable_session s = record s { file = none }

-- `complete_session`: a diagnostic for a session that still has its file, and its end.
pub complete_session : Session → Session
unfolding disable_session
complete_session s =
    if is_none s.file then s else disable_session (record s { completions = s.completions + 1 })

abbrev pub resolved : Bool → Bool → Option String → TurnResolution
resolved keep pending reason = record {
  keep_running = keep;
  restart_prompt_pending = pending;
  failure_reason = reason;
}

unfoldable pub classify_interrupt_claim : Values → String → ℕ → InterruptClaimState
unfolding restart_claim_is_current
classify_interrupt_claim runtime turn_id now =
    if not runtime.restart_claimed then unclaimed else elim runtime.restart_request [
      | none ↦ mismatch
      | some r ↦
          if not (str_eq r.turn_id turn_id) then mismatch else elim runtime.restart_claimed_at [
            | none ↦ mismatch
            | some at ↦ if not (restart_claim_is_current at now) then expired else matched
          ]
    ]

-- `_complete_goal`
complete_goal : String → Session → Result (TurnResolution × Session)
unfolding mutate complete_session
complete_goal turn_id s = do
  finished ← mutate (record_turn_finished turn_id) s
  ok (resolved false false none, complete_session finished)

-- `_continue_active_goal`
continue_active_goal : GoalOutcomeGuard → String → Session → Result (TurnResolution × Session)
unfolding mutate complete_goal
continue_active_goal guard turn_id s = elim guard.pause_for_interrupt [
  | ok done ↦ (do
    finished ← mutate (record_turn_finished turn_id) s
    ok (resolved true false none, finished))
  | err reason ↦ if not (str_eq reason "goal_complete") then err reason else complete_goal turn_id s
]

finish_and_go_on : String → Session → Result (TurnResolution × Session)
unfolding mutate
finish_and_go_on turn_id s = do
  finished ← mutate (record_turn_finished turn_id) s
  ok (resolved true false none, finished)

by_status : GoalStatus → GoalOutcomeGuard → String → Session → Result (TurnResolution × Session)
unfolding continue_active_goal complete_goal finish_and_go_on
by_status active guard turn_id s = continue_active_goal guard turn_id s
by_status paused guard turn_id s = finish_and_go_on turn_id s
by_status complete guard turn_id s = complete_goal turn_id s
by_status blocked guard turn_id s = ok (resolved false false (some "goal_blocked"), s)
by_status usage_limited guard turn_id s = ok (resolved false false (some "goal_usage_limited"), s)
by_status budget_limited guard turn_id s = ok (resolved false false (some "goal_budget_limited"), s)

-- `_resolve_completed`
unfoldable pub resolve_completed :
    Values → Option GoalOutcomeGuard → String → Session → Result (TurnResolution × Session)
unfolding by_status finish_and_go_on
resolve_completed runtime goal_guard turn_id s =
    if not runtime.goal_companion then finish_and_go_on turn_id s else elim goal_guard [
      | none ↦ ok (resolved false false (some "goal_identity_missing"), s)
      | some guard ↦ (do status ← guard.status_after_turn; by_status status guard turn_id s)
    ]

by_claim : InterruptClaimState → Values → String → ℕ → Session → Result (TurnResolution × Session)
unfolding mutate disable_session finish_and_go_on
by_claim matched runtime turn_id now s = do
  restarted ← mutate (record_restart_performed turn_id now) s
  ok (resolved true true none, restarted)
by_claim unclaimed runtime turn_id now s =
    if not runtime.goal_companion
    then (if runtime.shutdown_requested
        then ok (resolved false false none, disable_session s)
        else finish_and_go_on turn_id s)
    else ok (resolved false false (some "turn_interrupted_external"), s)
by_claim expired runtime turn_id now s =
    ok (resolved false false (some "interrupt_claim_expired"), s)
by_claim mismatch runtime turn_id now s =
    ok (resolved false false (some "interrupt_claim_mismatch"), s)

-- `_resolve_interrupted`
unfoldable pub resolve_interrupted :
    Values → String → ℕ → Session → Result (TurnResolution × Session)
unfolding by_claim classify_interrupt_claim
resolve_interrupted runtime turn_id now s =
    by_claim (classify_interrupt_claim runtime turn_id now) runtime turn_id now s

unfoldable pub resolve_turn_outcome :
    Values
    → Option GoalOutcomeGuard
    → String
    → TurnOutcome
    → ℕ
    → Session
    → Result (TurnResolution × Session)
unfolding resolve_completed resolve_interrupted complete_session disable_session
resolve_turn_outcome runtime guard turn_id completed now s =
    if runtime.shutdown_requested
    then ok (
      resolved false false none,
      if runtime.shutdown_interrupt then disable_session s else complete_session s,
    )
    else resolve_completed runtime guard turn_id s
resolve_turn_outcome runtime guard turn_id interrupted now s =
    resolve_interrupted runtime turn_id now s
resolve_turn_outcome runtime guard turn_id failed now s =
    ok (resolved false false (some "turn_failed"), s)
resolve_turn_outcome runtime guard turn_id in_progress now s =
    ok (resolved false false (some "turn_status_invalid"), s)
resolve_turn_outcome runtime guard turn_id invalid now s =
    ok (resolved false false (some "turn_status_invalid"), s)

-- The session whose file holds `v`, as the tick loaded it.
abbrev pub loaded : Values → ℕ → Session
loaded v n = record { file = some v; completions = n }
