-- ===== src/Manager/Tests.antt =====
-- A session under the manager, and the theorems at concrete inputs.
use codex_must_work.Prelude.{
  false, any, ◌≡◌, refl, String, true, false, none, some, List, [], ◌∷◌, ok, Option,
}
use codex_must_work.Manager.{Values, RestartRequest}
use codex_must_work.Manager.Ownership.{
  same_request, record_turn_started, record_restart_performed, enabled_values, finish_turn,
}
use codex_must_work.Manager.Ownership.Histories.{
  Write, completes, accepts, starts, claims, restarts, writes, activated, IsOwned,
  writes-activated-IsOwned, after,
}
use codex_must_work.Manager.Decision.{ManagerView}
use codex_must_work.Manager.Interrupt.{
  Answers, InterruptResult, Execution, execute, is_interrupt, interrupted_turns,
}
use codex_must_work.Manager.Interrupt.Exact.{interrupt_is_claimed}
use codex_must_work.Manager.Outcomes.{
  interrupted, TurnResolution, Session, resolved, loaded, resolve_turn_outcome,
}
use codex_must_work.Manager.Outcomes.Resolution.{Settled, resolution-Settled}

abbrev request : RestartRequest
request = record {
  request_id = "r1";
  turn_id = "t2";
  target_id = none;
  target_generation = 1;
  progress_epoch = 0;
  turn_activity_epoch = 0;
}

abbrev script : List Write
script =
    completes "t1" ∷ accepts "t2" ∷ starts "t2" 50 ∷ claims request true 80 ∷ restarts "t2" 90 ∷ []

writes-activated-IsOwned_example : IsOwned (writes (activated "s" false "t1" 10) script)
writes-activated-IsOwned_example = writes-activated-IsOwned "s" false "t1" 10 script

abbrev idle : Values
idle = record (enabled_values "s" true false) { handoff_requested = true }

abbrev owning : Values
owning = record (enabled_values "s" true false) {
  managed_turn_id = some "t2";
  parent_turn_id = some "t2";
  restart_request = some request;
  restart_claimed = true;
  restart_claimed_at = some 80;
}

abbrev given_up : Values
unfolding finish_turn
given_up = finish_turn (record owning { restart_count = 1 })

performed : record_restart_performed "t2" 90 owning ≡ ok given_up
unfolding record_restart_performed given_up enabled_values
performed = refl

abbrev running : Values
unfolding record_turn_started
running = after idle (record_turn_started "t2" 5 idle)

running_ok : record_turn_started "t2" 5 idle ≡ ok running
unfolding record_turn_started enabled_values running
running_ok = refl

abbrev view : ManagerView
view = record {
  enabled = true;
  handoff_requested = false;
  managed_turn_id = some "t2";
  restart_request_turn_id = some "t2";
  goal_companion = false;
}

abbrev owned_turn : Option String
owned_turn = some "t2"

abbrev no_turn : Option String
no_turn = none

abbrev settled_result : TurnResolution × Session
settled_result = (resolved true true none, loaded given_up 0)

settled_ok :
    resolve_turn_outcome owning none "t2" interrupted 90 (loaded owning 0) ≡ ok settled_result
unfolding resolve_turn_outcome enabled_values given_up record_restart_performed
settled_ok = refl

resolution-Settled_example : Settled (loaded owning 0) settled_result
resolution-Settled_example =
    resolution-Settled owning none "t2" interrupted 90 0 settled_result settled_ok

abbrev requested : Values
requested = record owning { restart_claimed = false; restart_claimed_at = none }

abbrev answers : Answers
answers = record {
  claim_holds = true;
  claimed_at = 80;
  pause_for_interrupt = ok tt;
  still_holds = true;
  active_turn = some "t2";
  turn_completed = false;
  wait_turn_completed = true;
  turn_outcome = some interrupted;
  finished_at = 90;
}

abbrev loaded_request : Option RestartRequest
loaded_request = some request

abbrev run : Execution
run = execute true loaded_request false "t2" answers requested

run_interrupts : any is_interrupt run.requests ≡ true
unfolding execute enabled_values
run_interrupts = refl

interrupt_is_claimed_example :
    ((r : RestartRequest) × (loaded_request ≡ some r)
      × (same_request requested.restart_request r ≡ true))
    × (false ≡ false)
    × (requested.restart_claimed ≡ false)
    × (answers.claim_holds ≡ true)
    × (answers.still_holds ≡ true)
    × (answers.active_turn ≡ some "t2")
    × (interrupted_turns run.requests ≡ "t2" ∷ [])
interrupt_is_claimed_example =
    interrupt_is_claimed true loaded_request false "t2" answers requested run_interrupts

abbrev restart_result : InterruptResult
restart_result = record { restarted = true; failure_reason = none }

run_restarted : run.result ≡ ok restart_result
unfolding execute enabled_values
run_restarted = refl
