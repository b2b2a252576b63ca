-- ===== src/Manager/Engine/Interrupting.antt =====
-- The interrupt of a stalled turn: the claim of its restart, and the file that it leaves.
use codex_must_work.Prelude.{
  ℕ, ◌+◌, ◌≤◌, ◌≡◌, refl, String, Bool, true, false, Option, none, some, [], ◌∷◌, opt_eq,
  opt_eq_iff, eq_refl, if◌then◌else◌, ok, arith,
}
use codex_must_work.Manager.{RestartRequest, Values}
use codex_must_work.Manager.Ownership.{
  claim_restart_request, request_is_fresh, same_request, record_restart_performed,
  restart_claim_ttl, requests_turn, finish_turn, bump_revision,
}
use codex_must_work.Manager.Outcomes.{interrupted}
use codex_must_work.Manager.Interrupt.{
  Answers, interrupts, execute, claimed, finish_interrupt, cleans_terminals,
}

-- The session owns the turn, and the watcher has asked for its restart.
pub record IsStalled (turn : String) (r : RestartRequest) (v : Values) : Type 0 where
  pub enabled : v.enabled ≡ true
  pub managed : v.managed_mode ≡ true
  pub owned : v.managed_turn_id ≡ some turn
  pub unpending : v.pending_turn_id ≡ none
  pub requested : v.restart_request ≡ some r
  pub names : r.turn_id ≡ turn
  pub unclaimed : v.restart_claimed ≡ false
  pub no_goal : v.goal_companion ≡ false
  pub no_shutdown : v.shutdown_requested ≡ false

-- The evidence holds at the claim and after it, the turn is active, and it ends as interrupted within a
-- minute of the claim.
pub record IsInterruptible (turn : String) (a : Answers) : Type 0 where
  pub claim_holds : a.claim_holds ≡ true
  pub paused : a.pause_for_interrupt ≡ ok tt
  pub still_holds : a.still_holds ≡ true
  pub active : a.active_turn ≡ some turn
  pub completed : a.wait_turn_completed ≡ true
  pub outcome : a.turn_outcome ≡ some interrupted
  pub later : a.claimed_at ≤ a.finished_at
  pub soon : a.finished_at ≤ a.claimed_at + restart_claim_ttl

pub opt_eq_refl : (o : Option String) → opt_eq o o ≡ true
opt_eq_refl o = (opt_eq_iff o o).1 refl

same_request_refl : (r : RestartRequest) → same_request (some r) r ≡ true
unfolding same_request
same_request_refl r =
    ground (arith, eq_refl r.request_id, eq_refl r.turn_id, opt_eq_refl r.target_id)

-- The file with the claim, and once the restart is recorded.
unfoldable pub claimed_file : ℕ → Values → Values
unfolding bump_revision
claimed_file at v =
    bump_revision (record v { restart_claimed = true; restart_claimed_at = some at })

unfoldable pub restarted_file : ℕ → Values → Values
unfolding finish_turn claimed_file
restarted_file at v =
    finish_turn (record (claimed_file at v) { restart_count = v.restart_count + 1 })

claimed-ok :
    (r : RestartRequest) (at : ℕ) (v : Values)
    → v.restart_request ≡ some r
    → v.restart_claimed ≡ false
    → claim_restart_request r true at v ≡ (claimed_file at v, true)
unfolding claim_restart_request request_is_fresh claimed_file
claimed-ok r at v e c = ground (arith, same_request_refl r)

fresh-ok :
    (r : RestartRequest) (at : ℕ) (v : Values)
    → v.restart_request ≡ some r
    → request_is_fresh r true (claimed_file at v) ≡ (claimed_file at v, true)
unfolding request_is_fresh claimed_file
fresh-ok r at v e = ground (arith, same_request_refl r)

requests_turn-ok :
    (turn : String) (r : RestartRequest) (o : Option RestartRequest)
    → o ≡ some r
    → r.turn_id ≡ turn
    → requests_turn turn o ≡ true
requests_turn-ok turn r o e names = rw (e, names) (eq_refl turn)

performed-ok :
    (turn : String) (r : RestartRequest) (at now : ℕ) (v : Values)
    → IsStalled turn r v
    → at ≤ now
    → now ≤ at + restart_claim_ttl
    → record_restart_performed turn now (claimed_file at v) ≡ ok (restarted_file at v)
unfolding record_restart_performed restarted_file
performed-ok turn r at now v s later soon =
    ground
      (arith, s.owned, requests_turn-ok turn r v.restart_request s.requested s.names, eq_refl turn)

finished-ok :
    (cleanup : Bool) (turn : String) (r : RestartRequest) (a : Answers) (v : Values)
    → IsStalled turn r v
    → IsInterruptible turn a
    → finish_interrupt cleanup turn a (claimed_file a.claimed_at v) ≡ record {
      result = ok (record { restarted = true; failure_reason = none });
      file = restarted_file a.claimed_at v;
      requests = interrupts turn ∷ (if cleanup then cleans_terminals ∷ [] else []);
    }
unfolding finish_interrupt
finished-ok cleanup turn r a v s i =
    simp (finish_interrupt, i.outcome)
      (simp (performed-ok turn r a.claimed_at a.finished_at v s i.later i.soon) refl)

pub executed :
    (cleanup : Bool) (turn : String) (r : RestartRequest) (a : Answers) (v : Values)
    → IsStalled turn r v
    → IsInterruptible turn a
    → execute cleanup (some r) false turn a v ≡ record {
      result = ok (record { restarted = true; failure_reason = none });
      file = restarted_file a.claimed_at v;
      requests = interrupts turn ∷ (if cleanup then cleans_terminals ∷ [] else []);
    }
unfolding execute claimed
executed cleanup turn r a v s i =
    simp (execute, i.claim_holds)
      (simp (claimed-ok r a.claimed_at v s.requested s.unclaimed) (
        simp (claimed, i.paused)
          (simp (i.still_holds, fresh-ok r a.claimed_at v s.requested)
            (simp (i.active, eq_refl turn, i.completed) (finished-ok cleanup turn r a v s i)))))
