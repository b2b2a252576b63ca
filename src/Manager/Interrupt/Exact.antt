-- ===== src/Manager/Interrupt/Exact.antt =====
-- Which turn an interrupt stops, and what a restart has done.
use codex_must_work.Prelude.{
  ◌+◌, ◌≡◌, refl, [], ◌∷◌, String, Bool, true, false, Option, none, some, any, opt_eq_iff, ok,
  arith,
}
use codex_must_work.Manager.{Option, RestartRequest, Values}
use codex_must_work.Manager.Outcomes.{interrupted}
use codex_must_work.Manager.Ownership.{
  record_turn_finished, same_request, claim_restart_request, request_is_fresh,
  record_restart_performed,
}
use codex_must_work.Manager.Interrupt.{
  InterruptResult, Answers, execute, claimed, cancel, finish_interrupt, is_interrupt,
  interrupted_turns,
}

cancel-quiet :
    (r : RestartRequest) (turn : String) (a : Answers) (v : Values)
    → any is_interrupt (cancel r turn a v).requests ≡ false
unfolding cancel
cancel-quiet r turn a v = ground arith

finish_interrupt-turn :
    (cleanup : Bool) (turn : String) (a : Answers) (v : Values)
    → interrupted_turns (finish_interrupt cleanup turn a v).requests ≡ turn ∷ []
unfolding finish_interrupt
finish_interrupt-turn cleanup turn a v = ground arith

claimed-exact :
    (cleanup : Bool) (r : RestartRequest) (turn : String) (a : Answers) (v : Values)
    → any is_interrupt (claimed cleanup r turn a v).requests ≡ true
    → (a.still_holds ≡ true)
      × (a.active_turn ≡ some turn)
      × (interrupted_turns (claimed cleanup r turn a v).requests ≡ turn ∷ [])
unfolding claimed
claimed-exact cleanup r turn a v h =
    let checked = (request_is_fresh r a.still_holds v).0 in
    let quiet = cancel-quiet r turn a checked in
    let sent = finish_interrupt-turn cleanup turn a checked in
    unfold request_is_fresh in ground (arith, quiet, sent, opt_eq_iff a.active_turn (some turn))

-- An interrupt is sent only for the turn that the call was made for, at most once, while that turn is
-- the active one, and only by the call that claimed the request: the tick had loaded that very request
-- without a claim, the file still had it unclaimed, and the evidence held at the claim and again before
-- the interrupt.
pub interrupt_is_claimed :
    (cleanup : Bool) (loaded : Option RestartRequest) (loaded_claim : Bool) (turn : String)
    (a : Answers) (v : Values)
    → any is_interrupt (execute cleanup loaded loaded_claim turn a v).requests ≡ true
    → ((r : RestartRequest) × (loaded ≡ some r) × (same_request v.restart_request r ≡ true))
      × (loaded_claim ≡ false)
      × (v.restart_claimed ≡ false)
      × (a.claim_holds ≡ true)
      × (a.still_holds ≡ true)
      × (a.active_turn ≡ some turn)
      × (interrupted_turns (execute cleanup loaded loaded_claim turn a v).requests ≡ turn ∷ [])
unfolding execute
interrupt_is_claimed cleanup none loaded_claim turn a v h = cc
interrupt_is_claimed cleanup (some r) loaded_claim turn a v h =
    let exact =
      claimed-exact cleanup r turn a (claim_restart_request r a.claim_holds a.claimed_at v).0 in
    unfold claim_restart_request in
    (
      (r, refl, ground (arith, exact)),
      ground (arith, exact),
      ground (arith, exact),
      ground (arith, exact),
      ground (arith, exact),
      ground (arith, exact),
      ground (arith, exact),
    )

finish_interrupt-restarted :
    (cleanup : Bool) (turn : String) (a : Answers) (v : Values) (x : InterruptResult)
    → (finish_interrupt cleanup turn a v).result ≡ ok x
    → x.restarted ≡ true
    → (a.turn_outcome ≡ some interrupted)
      × ((finish_interrupt cleanup turn a v).file.restart_count ≡ v.restart_count + 1)
      × ((finish_interrupt cleanup turn a v).file.managed_turn_id ≡ none)
      × ((finish_interrupt cleanup turn a v).file.handoff_requested ≡ true)
      × (any is_interrupt (finish_interrupt cleanup turn a v).requests ≡ true)
unfolding finish_interrupt record_restart_performed
finish_interrupt-restarted cleanup turn a v x h t = ground arith

cancel-restarted :
    (r : RestartRequest) (turn : String) (a : Answers) (v : Values) (x : InterruptResult)
    → (cancel r turn a v).result ≡ ok x
    → x.restarted ≡ false
unfolding cancel record_turn_finished
cancel-restarted r turn a v x h = ground arith

claimed-restarted :
    (cleanup : Bool) (r : RestartRequest) (turn : String) (a : Answers) (v : Values)
    (x : InterruptResult)
    → (claimed cleanup r turn a v).result ≡ ok x
    → x.restarted ≡ true
    → (a.turn_outcome ≡ some interrupted)
      × ((claimed cleanup r turn a v).file.restart_count ≡ v.restart_count + 1)
      × ((claimed cleanup r turn a v).file.managed_turn_id ≡ none)
      × ((claimed cleanup r turn a v).file.handoff_requested ≡ true)
      × (any is_interrupt (claimed cleanup r turn a v).requests ≡ true)
unfolding claimed
claimed-restarted cleanup r turn a v x h t =
    let checked = (request_is_fresh r a.still_holds v).0 in
    let quiet = cancel-restarted r turn a checked x in
    let done = finish_interrupt-restarted cleanup turn a checked x in
    unfold request_is_fresh in ground (arith, quiet, done)

-- A call that reports a restart has sent its interrupt and seen the turn end as interrupted; the file
-- then counts one restart more, owns no turn and asks for the handoff.
restarted_is_recorded :
    (cleanup : Bool) (loaded : Option RestartRequest) (loaded_claim : Bool) (turn : String)
    (a : Answers) (v : Values) (x : InterruptResult)
    → (execute cleanup loaded loaded_claim turn a v).result ≡ ok x
    → x.restarted ≡ true
    → (a.turn_outcome ≡ some interrupted)
      × ((execute cleanup loaded loaded_claim turn a v).file.restart_count ≡ v.restart_count + 1)
      × ((execute cleanup loaded loaded_claim turn a v).file.managed_turn_id ≡ none)
      × ((execute cleanup loaded loaded_claim turn a v).file.handoff_requested ≡ true)
      × (any is_interrupt (execute cleanup loaded loaded_claim turn a v).requests ≡ true)
unfolding execute
restarted_is_recorded cleanup none loaded_claim turn a v x h t = ground arith
restarted_is_recorded cleanup (some r) loaded_claim turn a v x h t =
    let file = (claim_restart_request r a.claim_holds a.claimed_at v).0 in
    let done = claimed-restarted cleanup r turn a file x in
    unfold claim_restart_request in ground (arith, done)
