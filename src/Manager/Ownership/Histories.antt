-- ===== src/Manager/Ownership/Histories.antt =====
-- The runtime file under any history of the manager's writes: its invariant and what each committed
-- write needs.
use codex_must_work.Prelude.{
  count_if, List, [], ◌∷◌, ◌+◌, ◌≤◌, true, arith, if◌then◌else◌, ℕ, ◌≡◌, ◌⊎◌, String, Bool, true,
  false, List, [], ◌∷◌, arith, is_none, Result, ok, err,
}
use codex_must_work.Manager.{RestartRequest, Values}
use codex_must_work.Manager.Ownership.{
  enabled_values, bind_activation, mark_manager_ready, mark_manager_stopped,
  request_manager_startup_cancel, record_turn_started, record_pending_turn,
  mark_pending_turn_timed_out, clear_pending_turn, record_turn_finished, record_restart_performed,
  request_is_fresh, claim_restart_request, record_manager_failure, adopt_started,
  complete_activation,
}

-- A write of the manager or of the daemon to the file. The hooks of the session, the deferral of its
-- shutdown and the commits of the watcher write to the same file and are not among them; nothing in the
-- repository writes a restart request into it.
pub data Write : Type 0 where
  readies : ℕ → Write
  stops cancels_startup : Write
  starts : String → ℕ → Write
  accepts : String → Write
  times_out : String → ℕ → Write
  clears finishes : String → Write
  restarts : String → ℕ → Write
  claims : RestartRequest → Bool → ℕ → Write
  rechecks : RestartRequest → Bool → Write
  fails : String → Write
  adopts : String → ℕ → Write
  completes : String → Write

-- A write that raises leaves the file as it was.
abbrev pub after : Values → Result Values → Values
after v (ok w) = w
after v (err reason) = v

unfoldable pub write : Values → Write → Values
write v (readies pid) = after v (mark_manager_ready pid v)
write v stops = after v (mark_manager_stopped v)
write v cancels_startup = after v (request_manager_startup_cancel v)
write v (starts turn now) = after v (record_turn_started turn now v)
write v (accepts turn) = after v (record_pending_turn turn v)
write v (times_out turn at) = after v (mark_pending_turn_timed_out turn at v)
write v (clears turn) = (clear_pending_turn turn v).0
write v (finishes turn) = after v (record_turn_finished turn v)
write v (restarts turn now) = after v (record_restart_performed turn now v)
write v (claims r holds now) = (claim_restart_request r holds now v).0
write v (rechecks r holds) = (request_is_fresh r holds v).0
write v (fails reason) = record_manager_failure reason v
write v (adopts turn now) = (adopt_started turn now v).0
write v (completes turn) = after v (complete_activation turn v)

unfoldable pub writes : Values → List Write → Values
writes v [] = v
writes v (w ∷ ws) = writes (write v w) ws

pub record IsOwned (v : Values) : Type 0 where
  -- No turn is pending while another is owned.
  pub exclusive : (is_none v.pending_turn_id ≡ true) ⊎ (is_none v.managed_turn_id ≡ true)
  -- A timeout belongs to a pending turn.
  pub timed : (is_none v.pending_turn_timed_out_at ≡ true) ⊎ (is_none v.pending_turn_id ≡ false)
  -- Nothing asks for a restart, so none is claimed and none was performed.
  pub unasked : is_none v.restart_request ≡ true
  pub unclaimed : v.restart_claimed ≡ false
  pub unrestarted : v.restart_count ≡ 0
  -- The owned turn is the parent turn that the watcher watches.
  pub watched : (is_none v.managed_turn_id ≡ true) ⊎ (v.managed_turn_id ≡ v.parent_turn_id)

write-IsOwned : (v : Values) (w : Write) → IsOwned v → IsOwned (write v w)
unfolding write
write-IsOwned v (readies pid) o = unfold mark_manager_ready in ground arith
write-IsOwned v stops o = unfold mark_manager_stopped in ground arith
write-IsOwned v cancels_startup o = unfold request_manager_startup_cancel in ground arith
write-IsOwned v (starts turn now) o = unfold record_turn_started in ground arith
write-IsOwned v (accepts turn) o = unfold record_pending_turn in ground arith
write-IsOwned v (times_out turn at) o = unfold mark_pending_turn_timed_out in ground arith
write-IsOwned v (clears turn) o = unfold clear_pending_turn in ground arith
write-IsOwned v (finishes turn) o = unfold record_turn_finished in ground arith
write-IsOwned v (restarts turn now) o = unfold record_restart_performed in ground arith
write-IsOwned v (claims r holds now) o = unfold claim_restart_request in ground arith
write-IsOwned v (rechecks r holds) o = unfold request_is_fresh in ground arith
write-IsOwned v (fails reason) o = unfold record_manager_failure in ground arith
write-IsOwned v (adopts turn now) o = unfold adopt_started in ground arith
write-IsOwned v (completes turn) o = unfold complete_activation in ground arith

writes-IsOwned : (v : Values) (ws : List Write) → IsOwned v → IsOwned (writes v ws)
unfolding writes
writes-IsOwned v [] o = o
writes-IsOwned v (w ∷ ws) o = writes-IsOwned (write v w) ws (write-IsOwned v w o)

abbrev pub activated : String → Bool → String → ℕ → Values
activated session goal turn now = bind_activation turn now (enabled_values session true goal)

activated-IsOwned :
    (session : String) (goal : Bool) (turn : String) (now : ℕ)
    → IsOwned (activated session goal turn now)
unfolding bind_activation enabled_values
activated-IsOwned session goal turn now = ground arith

-- From the file of a managed activation, any history of the manager's own writes keeps the ownership in
-- order: never a pending and an owned turn at once, a timeout only for a pending turn, and the owned
-- turn is the watched parent turn; and as none of these writes asks for a restart, the file never holds
-- a request or a claim of one and counts none. The hooks of the session, which may change the parent
-- turn, are not among these writes.
pub writes-activated-IsOwned :
    (session : String) (goal : Bool) (turn : String) (now : ℕ) (ws : List Write)
    → IsOwned (writes (activated session goal turn now) ws)
writes-activated-IsOwned session goal turn now ws =
    writes-IsOwned _ ws (activated-IsOwned session goal turn now)

-- The attempts to claim with evidence that holds.
abbrev pub is_claim : Write → Bool
is_claim (claims r holds now) = holds
is_claim _ = false

abbrev pub claim_weight : Bool → ℕ
claim_weight b = if b then 1 else 0

write-restarts :
    (v : Values) (w : Write)
    → (write v w).restart_count + claim_weight (write v w).restart_claimed
      ≤ v.restart_count + claim_weight v.restart_claimed + count_if is_claim (w ∷ [])
unfolding write
write-restarts v (readies pid) = unfold mark_manager_ready in ground arith
write-restarts v stops = unfold mark_manager_stopped in ground arith
write-restarts v cancels_startup = unfold request_manager_startup_cancel in ground arith
write-restarts v (starts turn now) = unfold record_turn_started in ground arith
write-restarts v (accepts turn) = unfold record_pending_turn in ground arith
write-restarts v (times_out turn at) = unfold mark_pending_turn_timed_out in ground arith
write-restarts v (clears turn) = unfold clear_pending_turn in ground arith
write-restarts v (finishes turn) = unfold record_turn_finished in ground arith
write-restarts v (restarts turn now) = unfold record_restart_performed in ground arith
write-restarts v (claims r holds now) = unfold claim_restart_request in ground arith
write-restarts v (rechecks r holds) = unfold request_is_fresh in ground arith
write-restarts v (fails reason) = unfold record_manager_failure in ground arith
write-restarts v (adopts turn now) = unfold adopt_started in ground arith
write-restarts v (completes turn) = unfold complete_activation in ground arith

writes-restarts :
    (v : Values) (ws : List Write)
    → (writes v ws).restart_count + claim_weight (writes v ws).restart_claimed
      ≤ v.restart_count + claim_weight v.restart_claimed + count_if is_claim ws
unfolding writes
writes-restarts v [] = omega arith
writes-restarts v (w ∷ ws) = ground (arith, write-restarts v w, writes-restarts (write v w) ws)

-- Over any history of a managed activation, the restarts performed are at most the claims made on
-- evidence that held: no claim pays for two restarts.
restarts-le-claims :
    (session : String) (goal : Bool) (turn : String) (now : ℕ) (ws : List Write)
    → (writes (activated session goal turn now) ws).restart_count ≤ count_if is_claim ws
restarts-le-claims session goal turn now ws =
    let all = writes-restarts (activated session goal turn now) ws in
    unfold bind_activation enabled_values in ground (arith, all)
