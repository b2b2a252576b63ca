-- ===== src/Manager/Decision.antt =====
-- scripts/manager_decision.py: the one action of a manager tick.
use codex_must_work.Prelude.{
  ◌≡◌, ◌↔◌, String, Bool, true, not, ◌&&◌, Option, none, some, arith, opt_eq, opt_eq_iff, is_none,
  if◌then◌else◌,
}

pub data ManagerAction : Type 0 where
  stop wait start resume_goal interrupt fail_closed : ManagerAction

pub record ManagerView : Type 0 where
  pub enabled : Bool
  pub handoff_requested : Bool
  pub managed_turn_id : Option String
  pub restart_request_turn_id : Option String
  pub goal_companion : Bool

pub record ManagerDecision : Type 0 where
  pub action : ManagerAction
  pub turn_id : Option String
  pub reason_code : Option String

abbrev decide : ManagerAction → ManagerDecision
decide action = record { action = action; turn_id = none; reason_code = none }

abbrev fail_with : String → ManagerDecision
fail_with reason = record { action = fail_closed; turn_id = none; reason_code = some reason }

restart_decision : ManagerView → Option String → ManagerDecision
restart_decision view active =
    if not (opt_eq view.restart_request_turn_id view.managed_turn_id)
    then fail_with "restart_turn_not_owned"
    else if is_none active
    then decide wait
    else if not (opt_eq active view.restart_request_turn_id)
    then fail_with "active_turn_mismatch"
    else record { action = interrupt; turn_id = view.restart_request_turn_id; reason_code = none }

handoff_decision : Bool → Option String → ManagerDecision
handoff_decision goal_companion active =
    if goal_companion
    then (if is_none active then decide resume_goal else fail_with "unexpected_active_turn")
    else if not (is_none active)
    then decide wait
    else decide start

unfoldable pub decide_manager_action : ManagerView → Option String → ManagerDecision
unfolding restart_decision handoff_decision
decide_manager_action view active =
    if not view.enabled
    then decide stop
    else if not (is_none view.restart_request_turn_id)
    then restart_decision view active
    else if view.handoff_requested && is_none view.managed_turn_id
    then handoff_decision view.goal_companion active
    else decide wait

-- A turn is interrupted exactly when it is the turn that the restart request names, that the manager
-- owns and that is active, and the session is enabled.
interrupt_needs_ownership :
    (view : ManagerView) (active : Option String) (turn : String)
    → (((decide_manager_action view active).action ≡ interrupt)
        × ((decide_manager_action view active).turn_id ≡ some turn))
      ↔ ((view.enabled ≡ true)
          × (view.restart_request_turn_id ≡ some turn)
          × (view.managed_turn_id ≡ some turn)
          × (active ≡ some turn))
unfolding decide_manager_action
interrupt_needs_ownership view active turn = ground (
  arith,
  opt_eq_iff view.restart_request_turn_id view.managed_turn_id,
  opt_eq_iff active view.restart_request_turn_id,
)

-- A new turn is started, or the goal resumed, exactly when the session is enabled, no restart is
-- requested, a handoff is, no turn is owned and none is active; the goal companion decides between
-- the two.
start_needs_handoff :
    (view : ManagerView) (active : Option String)
    → ((decide_manager_action view active).action
        ≡ (if view.goal_companion then resume_goal else start))
      ↔ ((view.enabled ≡ true)
          × (view.restart_request_turn_id ≡ none)
          × (view.handoff_requested ≡ true)
          × (view.managed_turn_id ≡ none)
          × (active ≡ none))
unfolding decide_manager_action
start_needs_handoff view active = ground arith
