-- ===== src/Manager/Interrupt.antt =====
-- scripts/manager_interrupt.py: one interrupt of the owned turn, behind the claim and the freshness of
-- its restart request. The file of the session is there; what the app server, the goal guard and the
-- watcher's evidence answer during the call is an argument.
pub mod Exact
use codex_must_work.Prelude.{
  ◌&&◌, str_eq, eq_refl, arith, ◌≡◌, ℕ, String, Bool, true, false, not, ◌||◌, Option, none, some,
  List, [], ◌∷◌, opt_eq, is_none, if◌then◌else◌, Result, ok, err,
}
use codex_must_work.Manager.{RestartRequest, Values}
use codex_must_work.Manager.Ownership.{
  clear_pending_turn, claim_restart_request, request_is_fresh, clear_request, same_request,
  record_turn_finished, record_restart_performed,
}
use codex_must_work.Manager.Outcomes.{
  TurnOutcome, completed, interrupted, failed, in_progress, invalid,
}

pub record InterruptResult : Type 0 where
  pub restarted : Bool
  pub failure_reason : Option String

pub record Answers : Type 0 where
  -- the evidence at the claim, the pause of the goal (a guard that is not there pauses nothing), and the
  -- evidence after it
  pub claim_holds : Bool
  pub claimed_at : ℕ
  pub pause_for_interrupt : Result (Unit {0})
  pub still_holds : Bool
  -- the app server's answers
  pub active_turn : Option String
  pub turn_completed : Bool
  pub wait_turn_completed : Bool
  pub turn_outcome : Option TurnOutcome
  pub finished_at : ℕ

-- A request that the controller sent.
pub data Request : Type 0 where
  interrupts : String → Request
  cleans_terminals : Request

-- What `execute` returns or raises, the file after it, and the requests that it sent, oldest first.
pub record Execution : Type 0 where
  pub result : Result InterruptResult
  pub file : Values
  pub requests : List Request

abbrev nothing : InterruptResult
nothing = record { restarted = false; failure_reason = none }

abbrev failure : String → InterruptResult
failure reason = record { restarted = false; failure_reason = some reason }

abbrev ends : Result InterruptResult → Values → List Request → Execution
ends result file requests = record { result = result; file = file; requests = requests }

-- A write that may raise, and the result after it.
abbrev written : InterruptResult → Result Values → Values → List Request → Execution
written result (ok w) v requests = ends (ok result) w requests
written result (err reason) v requests = ends (err reason) v requests

-- `clear_restart_request`, for the request that was loaded.
unfoldable pub clear_restart_request : RestartRequest → Values → Values
unfolding same_request clear_request
clear_restart_request r v = if same_request v.restart_request r then clear_request v else v

-- `_cancel`
cancel : RestartRequest → String → Answers → Values → Execution
unfolding clear_restart_request record_turn_finished
cancel r turn a v =
    if a.turn_completed
    then written nothing (record_turn_finished turn v) v []
    else ends (ok nothing) (clear_restart_request r v) []

-- `_finish_interrupt`; `cleanup` says whether the message preset is `cleanup`.
unfoldable pub finish_interrupt : Bool → String → Answers → Values → Execution
unfolding record_restart_performed
finish_interrupt cleanup turn a v = elim a.turn_outcome [
  | none ↦ ends (ok (failure "turn_interrupted_external")) v (interrupts turn ∷ [])
  | some outcome ↦ elim outcome [
    | failed ↦ ends (ok (failure "turn_failed")) v (interrupts turn ∷ [])
    | completed ↦ ends (ok nothing) v (interrupts turn ∷ [])
    | in_progress ↦ ends (ok (failure "turn_status_invalid")) v (interrupts turn ∷ [])
    | invalid ↦ ends (ok (failure "turn_status_invalid")) v (interrupts turn ∷ [])
    | interrupted ↦
        written (record { restarted = true; failure_reason = none })
          (record_restart_performed turn a.finished_at v) v
          (interrupts turn ∷ (if cleanup then cleans_terminals ∷ [] else []))
  ]
]

-- `execute` once the request is claimed.
unfoldable pub claimed : Bool → RestartRequest → String → Answers → Values → Execution
unfolding cancel finish_interrupt request_is_fresh
claimed cleanup r turn a v = elim a.pause_for_interrupt [
  | err reason ↦ ends (err reason) v []
  | ok done ↦
      (let (checked, fresh) = request_is_fresh r a.still_holds v in
        if not fresh || is_none a.active_turn
        then cancel r turn a checked
        else if not (opt_eq a.active_turn (some turn))
        then ends (ok (failure "active_turn_mismatch")) checked []
        else if not a.wait_turn_completed
        then ends (ok (failure "interrupt_timeout")) checked (interrupts turn ∷ [])
        else finish_interrupt cleanup turn a checked)
]

-- `execute`, for the request and the claim that the tick loaded.
unfoldable pub execute : Bool → Option RestartRequest → Bool → String → Answers → Values → Execution
unfolding claimed claim_restart_request
execute cleanup none loaded_claim turn a v = ends (ok nothing) v []
execute cleanup (some r) loaded_claim turn a v =
    let (file, won) = claim_restart_request r a.claim_holds a.claimed_at v in
    if loaded_claim
    then ends (ok nothing) v []
    else if not won
    then ends (ok nothing) file []
    else claimed cleanup r turn a file

abbrev pub is_interrupt : Request → Bool
is_interrupt (interrupts turn) = true
is_interrupt cleans_terminals = false

-- The turns that the requests interrupt, in their order.
abbrev pub interrupted_turns : List Request → List String
interrupted_turns [] = []
interrupted_turns (interrupts turn ∷ requests) = turn ∷ interrupted_turns requests
interrupted_turns (cleans_terminals ∷ requests) = interrupted_turns requests

-- `expire_pending`
unfoldable pub expire_pending : String → Values → Values × List Request
unfolding clear_pending_turn
expire_pending turn v =
    let (file, cleared) = clear_pending_turn turn v in
    (file, if cleared then interrupts turn ∷ [] else [])

-- `claim in self._accepted_interrupt_claims`
is_accepted : String → String → List (String × String) → Bool
is_accepted session turn [] = false
is_accepted session turn ((s, t) ∷ claims) =
    str_eq s session && str_eq t turn || is_accepted session turn claims

-- `interrupt_unowned_accepted`, with the claims accepted before.
unfoldable pub interrupt_unowned_accepted :
    String → String → List (String × String) → List (String × String) × List Request
unfolding is_accepted
interrupt_unowned_accepted session turn claims =
    if is_accepted session turn claims
    then (claims, [])
    else ((session, turn) ∷ claims, interrupts turn ∷ [])

-- An accepted turn that nobody owns is interrupted once: after one call for it, a second call sends
-- nothing and keeps the claims.
accepted_once :
    (session turn : String) (claims : List (String × String))
    → let (after, requests) = interrupt_unowned_accepted session turn claims in
      interrupt_unowned_accepted session turn after ≡ (after, [])
unfolding interrupt_unowned_accepted
accepted_once session turn claims = ground (arith, eq_refl session, eq_refl turn)
