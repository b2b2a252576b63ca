-- ===== src/Manager/Ownership/Protocol.antt =====
-- What each write of the runtime file needs, and what it does to the next ones.
use codex_must_work.Prelude.{
  ℕ, ◌+◌, ◌≤◌, ◌≡◌, ◌≢◌, refl, String, true, false, Option, none, some, arith, eq_iff, opt_eq_iff,
  ok, err,
}
use codex_must_work.Manager.{RestartRequest, Values}
use codex_must_work.Manager.Ownership.{
  record_turn_started, record_pending_turn, clear_pending_turn, record_turn_finished,
  record_restart_performed, adopt_started, restart_claim_ttl, requests_turn, claim_is_current,
  bump_revision, start_managed_parent, finish_turn,
}

requests_turn-eq :
    (turn : String) (o : Option RestartRequest)
    → requests_turn turn o ≡ true
    → (r : RestartRequest) × (o ≡ some r) × (r.turn_id ≡ turn)
requests_turn-eq turn none h = cc
requests_turn-eq turn (some r) h = (r, refl, (eq_iff r.turn_id turn).0 h)

claim_is_current-eq :
    (o : Option ℕ) (now : ℕ)
    → claim_is_current o now ≡ true
    → (at : ℕ) × (o ≡ some at) × (at ≤ now) × (now ≤ at + restart_claim_ttl)
unfolding claim_is_current
claim_is_current-eq none now h = cc
claim_is_current-eq (some at) now h = (at, refl, ground arith, ground arith)

-- A restart is recorded only for the turn that is owned and that the claimed request names, with a
-- claim that is not in the future and at most a minute old; it then gives the turn up, clears the
-- request, counts one restart and asks for a handoff.
restart_needs_current_claim :
    (turn : String) (now : ℕ) (v w : Values)
    → record_restart_performed turn now v ≡ ok w
    → ((r : RestartRequest) × (v.restart_request ≡ some r) × (r.turn_id ≡ turn))
      × (v.managed_turn_id ≡ some turn)
      × (v.restart_claimed ≡ true)
      × ((at : ℕ) × (v.restart_claimed_at ≡ some at) × (at ≤ now) × (now ≤ at + restart_claim_ttl))
      × (w.restart_count ≡ v.restart_count + 1)
      × (w.managed_turn_id ≡ none)
      × (w.restart_request ≡ none)
      × (w.restart_claimed ≡ false)
      × (w.handoff_requested ≡ true)
unfolding record_restart_performed
restart_needs_current_claim turn now v w h = (
  requests_turn-eq turn v.restart_request (ground arith),
  (opt_eq_iff v.managed_turn_id (some turn)).0 (ground arith),
  ground arith,
  claim_is_current-eq v.restart_claimed_at now (ground arith),
  ground arith,
  ground arith,
  ground arith,
  ground arith,
  ground arith,
)

-- The life of a turn: with a handoff requested and no turn owned or pending, an accepted turn can be
-- recorded as pending, then as started, then as finished, and the file asks for the next handoff with
-- no turn owned or pending; each write counts one revision.
turn_life_cycle :
    (turn : String) (now : ℕ) (v : Values)
    → turn ≢ ""
    → v.enabled ≡ true
    → v.managed_mode ≡ true
    → v.handoff_requested ≡ true
    → v.managed_turn_id ≡ none
    → v.pending_turn_id ≡ none
    → (pending started finished : Values) × (record_pending_turn turn v ≡ ok pending)
      × (record_turn_started turn now pending ≡ ok started)
      × (started.managed_turn_id ≡ some turn)
      × (started.parent_turn_id ≡ some turn)
      × (started.handoff_requested ≡ false)
      × (record_turn_finished turn started ≡ ok finished)
      × (finished.managed_turn_id ≡ none)
      × (finished.pending_turn_id ≡ none)
      × (finished.handoff_requested ≡ true)
      × (finished.revision ≡ v.revision + 3)
unfolding record_pending_turn record_turn_started record_turn_finished
turn_life_cycle turn now v named a b c d e =
    let pending =
      bump_revision (record v { pending_turn_id = some turn; pending_turn_timed_out_at = none }) in
    let started = bump_revision (
      start_managed_parent
        (record pending {
          pending_turn_id = none;
          pending_turn_timed_out_at = none;
          managed_turn_id = some turn;
          handoff_requested = false;
          restart_request = none;
          restart_claimed = false;
          restart_claimed_at = none;
        })
        turn now) in
    (
      pending,
      started,
      finish_turn started,
      ground (arith, eq_iff turn ""),
      ground (arith, eq_iff turn "", eq_iff turn turn),
      refl,
      refl,
      refl,
      ground (arith, eq_iff turn turn),
      refl,
      refl,
      refl,
      omega arith,
    )

-- Once a turn is recorded as started, no write takes another turn in before it is given up: starting
-- and accepting raise, and a turn of the user is not adopted.
started_turn_excludes :
    (turn other : String) (now later : ℕ) (v w : Values)
    → other ≢ ""
    → record_turn_started turn now v ≡ ok w
    → (record_turn_started other later w ≡ err "handoff_state_changed")
      × (record_pending_turn other w ≡ err "handoff_state_changed")
      × (adopt_started other later w ≡ (w, false))
unfolding record_turn_started record_pending_turn adopt_started
started_turn_excludes turn other now later v w named h =
    (ground (arith, eq_iff other ""), ground (arith, eq_iff other ""), ground arith)

-- A pending turn is cleared by one caller only: after a call that cleared it, a second call for the
-- same turn clears nothing and leaves the file alone.
pending_cleared_once :
    (turn : String) (v : Values)
    → (clear_pending_turn turn v).1 ≡ true
    → let w = (clear_pending_turn turn v).0 in
      (v.pending_turn_id ≡ some turn) × (clear_pending_turn turn w ≡ (w, false))
unfolding clear_pending_turn
pending_cleared_once turn v h =
    ((opt_eq_iff v.pending_turn_id (some turn)).0 (ground arith), ground arith)

-- Finishing a turn succeeds exactly when that turn is owned; it cannot be finished twice.
finished_exactly_once :
    (turn : String) (v w : Values)
    → record_turn_finished turn v ≡ ok w
    → (v.managed_turn_id ≡ some turn)
      × (record_turn_finished turn w ≡ err "completed_turn_not_owned")
unfolding record_turn_finished
finished_exactly_once turn v w h =
    ((opt_eq_iff v.managed_turn_id (some turn)).0 (ground arith), ground arith)
