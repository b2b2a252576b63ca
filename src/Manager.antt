-- ===== src/Manager.antt =====
-- The resident manager of one turn: scripts/manager_runtime.py and the modules that decide on its
-- state. This file has the persisted values that the manager reads and writes, as their validators
-- let them through.
pub mod Ownership
pub mod Decision
pub mod Outcomes
pub mod Interrupt
pub mod Engine
mod Tests
use codex_must_work.Prelude.{ℕ, String, Bool, Option}

-- `RestartRequest`
pub record RestartRequest : Type 0 where
  pub request_id : String
  pub turn_id : String
  pub target_id : Option String
  pub target_generation : ℕ
  pub progress_epoch : ℕ
  pub turn_activity_epoch : ℕ

-- A monitor as `_new_monitor` makes it, without its random silence id.
pub record Monitor : Type 0 where
  pub terminal : Bool
  pub generation : ℕ
  pub silence_started_at : ℕ
  pub open_tool_count : ℕ
  pub waiting_for_approval : Bool
  pub waiting_for_user : Bool
  pub progress_epoch : ℕ

-- The values of a runtime file. A date is a number of microseconds.
pub record Values : Type 0 where
  pub session_id : String
  pub enabled : Bool
  pub managed_mode : Bool
  pub goal_companion : Bool
  pub manager_ready : Bool
  pub manager_pid : Option ℕ
  pub manager_error : Option String
  pub handoff_requested : Bool
  pub managed_turn_id : Option String
  pub pending_turn_id : Option String
  pub pending_turn_timed_out_at : Option ℕ
  pub restart_request : Option RestartRequest
  pub restart_claimed : Bool
  pub restart_claimed_at : Option ℕ
  pub restart_count : ℕ
  pub shutdown_requested : Bool
  pub shutdown_interrupt : Bool
  pub parent_turn_id : Option String
  pub parent_complete : Bool
  pub parent : Option Monitor
  pub turn_activity_epoch : ℕ
  pub revision : ℕ
