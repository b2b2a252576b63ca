-- ===== src/Monitors.antt =====
-- The monitors of a runtime file: scripts/monitor_state.py and scripts/activity_epoch.py, with the
-- readers and writers of one monitor that scripts/hook_state.py has. Values have the types that
-- the validators ask for, an optional one included. A date is a number of microseconds.
pub mod Views
use codex_must_work.Prelude.{
  ℕ, ◌+◌, String, Bool, true, false, not, ◌&&◌, ◌||◌, Option, none, some, List, [], ◌∷◌, ◌==◌,
  str_eq, opt_eq, any, all, map, if◌then◌else◌, Dict, get, put, Result, ok, err, ◌>>=◌,
}
use codex_must_work.Manager.{RestartRequest}

-- A monitor as `_new_monitor` makes it, without the four fields that never change.
pub record Monitor : Type 0 where
  pub terminal : Bool
  pub generation : ℕ
  pub last_tool_result_at : Option ℕ
  pub silence_started_at : Option ℕ
  pub open_tool_count : ℕ
  pub waiting_for_approval : Bool
  pub waiting_for_user : Bool
  pub silence_id : String
  pub progress_epoch : ℕ

-- The values of a runtime file that hooks and watchers read or write.
pub record RuntimeValues : Type 0 where
  pub enabled : Bool
  pub observe_only : Bool
  pub managed_mode : Bool
  pub manager_ready : Bool
  pub parent : Option Monitor
  pub children : Dict Monitor
  pub parent_turn_id : Option String
  pub parent_complete : Bool
  pub managed_turn_id : Option String
  pub handoff_requested : Bool
  pub shutdown_requested : Bool
  pub shutdown_interrupt : Bool
  pub restart_request : Option RestartRequest
  pub restart_claimed : Bool
  pub restart_claimed_at : Option ℕ
  pub completion_event_id : Option String
  pub turn_activity_epoch : ℕ
  pub revision : ℕ

-- The parent, or the child with this identifier.
abbrev pub Target : Type 0
Target = Option String

-- `_monitor`
unfoldable pub find_monitor : RuntimeValues → Target → Option Monitor
unfolding get
find_monitor v none = v.parent
find_monitor v (some id) = get v.children id

-- `_save_monitor`
unfoldable pub save_monitor : Target → Monitor → RuntimeValues → RuntimeValues
unfolding put
save_monitor none m v = record v { parent = some m }
save_monitor (some id) m v = record v { children = put id m v.children }

-- The update of a monitor that is there; without one nothing happens.
unfoldable pub update_monitor : Target → (Monitor → Monitor) → RuntimeValues → RuntimeValues
unfolding find_monitor save_monitor
update_monitor target f v = elim (find_monitor v target) [
  | none ↦ v
  | some m ↦ save_monitor target (f m) v
]

-- `(None, *tuple(children))`
abbrev pub keys {ℓ} : {A : Type ℓ} → Dict A → List Target
keys d = map (λ e. some e.0) d

abbrev pub all_targets : RuntimeValues → List Target
all_targets v = none ∷ keys v.children

unfoldable pub update_each : List Target → (Monitor → Monitor) → RuntimeValues → RuntimeValues
unfolding update_monitor
update_each [] f v = v
update_each (target ∷ targets) f v = update_each targets f (update_monitor target f v)

abbrev pub terminated : Monitor → Monitor
terminated m = record m { terminal = true }

-- `advance_turn_activity_epoch`
unfoldable pub advance_turn_activity_epoch : RuntimeValues → RuntimeValues
advance_turn_activity_epoch v = record v { turn_activity_epoch = v.turn_activity_epoch + 1 }

-- `persist_turn_activity`
unfoldable pub persist_turn_activity : Bool → RuntimeValues → RuntimeValues
unfolding advance_turn_activity_epoch
persist_turn_activity observed v = if observed then advance_turn_activity_epoch v else v

-- `advance_monitor_progress_epoch`
abbrev pub progressed : Monitor → Monitor
progressed m = record m { progress_epoch = m.progress_epoch + 1 }

-- `claim_completion`
unfoldable pub claim_completion : String → RuntimeValues → Bool × RuntimeValues
claim_completion event v =
    if opt_eq v.completion_event_id (some event)
    then (false, v)
    else (true, record v { completion_event_id = some event })

-- `mark_target_terminal`: a monitor that is missing is an error.
unfoldable pub mark_target_terminal : Target → RuntimeValues → Result (Bool × RuntimeValues)
unfolding find_monitor save_monitor
mark_target_terminal target v = elim (find_monitor v target) [
  | none ↦ err "invalid_value"
  | some m ↦ ok (if m.terminal then (false, v) else (true, save_monitor target (terminated m) v))
]

-- `advance_target_progress_epoch`
unfoldable pub advance_target_progress_epoch : Target → ℕ → RuntimeValues → Result RuntimeValues
unfolding find_monitor save_monitor
advance_target_progress_epoch target observed_at v = elim (find_monitor v target) [
  | none ↦ err "invalid_value"
  | some m ↦
      ok (save_monitor target (record (progressed m) { silence_started_at = some observed_at }) v)
]

-- `mark_parent_complete`
unfoldable pub mark_parent_complete : RuntimeValues → Bool × RuntimeValues
mark_parent_complete v =
    if v.parent_complete then (false, v) else (true, record v { parent_complete = true })
