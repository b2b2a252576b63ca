-- ===== src/Manager/Engine/Handoff.antt =====
-- How a tick hands the thread over to a turn of the manager.
use codex_must_work.Prelude.{
  ℕ, ◌≡◌, ◌≢◌, ◌⊎◌, inl, inr, refl, String, Bool, true, false, none, some, List, [], ◌∷◌, ◌++◌,
  eq_iff, eq_refl, if◌then◌else◌, ok, arith, Bool-cases,
}
use codex_must_work.Manager.{Values}
use codex_must_work.Manager.Ownership.{
  record_pending_turn, record_turn_started, mark_pending_turn_timed_out, start_managed_parent,
  bump_revision,
}
use codex_must_work.Manager.Decision.{start, decide_manager_action}
use codex_must_work.Manager.Engine.{
  tick, execute_decision, start_turn, request_turn, resumes_thread, starts_turn, view_of,
  ManagerEngine, Server, EngineRequest, accept_turn, owned_outcome,
}

-- The session waits for a turn of the manager: it is enabled and managed, asks for the handoff, has no
-- turn owned or pending, no restart request, no goal companion and no shutdown.
pub record IsWaiting (v : Values) : Type 0 where
  pub enabled : v.enabled ≡ true
  pub managed : v.managed_mode ≡ true
  pub requested : v.handoff_requested ≡ true
  pub unowned : v.managed_turn_id ≡ none
  pub unpending : v.pending_turn_id ≡ none
  pub unrequested : v.restart_request ≡ none
  pub no_goal : v.goal_companion ≡ false
  pub no_shutdown : v.shutdown_requested ≡ false

-- The turn is recorded: as owned if its start was seen, and as pending with the time of the timeout if
-- it was not.
abbrev pub IsRecorded : Server → String → Values → Type 0
IsRecorded server turn w =
    ((server.wait_turn_started ≡ true)
      × (w.managed_turn_id ≡ some turn)
      × (w.pending_turn_id ≡ none)
      × (w.handoff_requested ≡ false))
    ⊎ ((server.wait_turn_started ≡ false)
        × (w.managed_turn_id ≡ none)
        × (w.pending_turn_id ≡ some turn)
        × (w.pending_turn_timed_out_at ≡ some server.monotonic)
        × (w.handoff_requested ≡ true))

abbrev pending_file : String → Values → Values
unfolding bump_revision
pending_file turn v =
    bump_revision (record v { pending_turn_id = some turn; pending_turn_timed_out_at = none })

pending-ok :
    (turn : String) (v : Values)
    → turn ≢ ""
    → IsWaiting v
    → record_pending_turn turn v ≡ ok (pending_file turn v)
unfolding record_pending_turn pending_file
pending-ok turn v named w = ground (arith, w.unowned, w.unpending, eq_iff turn "")

abbrev started_file : String → ℕ → Values → Values
unfolding bump_revision start_managed_parent
started_file turn now v = bump_revision (
    start_managed_parent
      (record (pending_file turn v) {
        pending_turn_id = none;
        pending_turn_timed_out_at = none;
        managed_turn_id = some turn;
        handoff_requested = false;
        restart_request = none;
        restart_claimed = false;
        restart_claimed_at = none;
      })
      turn now)

started-ok :
    (turn : String) (now : ℕ) (v : Values)
    → turn ≢ ""
    → IsWaiting v
    → record_turn_started turn now (pending_file turn v) ≡ ok (started_file turn now v)
unfolding record_turn_started pending_file started_file
started-ok turn now v named w = ground (arith, w.unowned, eq_iff turn "", eq_refl turn)

abbrev timed_file : String → ℕ → Values → Values
unfolding bump_revision
timed_file turn at v =
    bump_revision (record (pending_file turn v) { pending_turn_timed_out_at = some at })

timed-ok :
    (turn : String) (at : ℕ) (v : Values)
    → IsWaiting v
    → mark_pending_turn_timed_out turn at (pending_file turn v) ≡ ok (timed_file turn at v)
unfolding mark_pending_turn_timed_out pending_file timed_file
timed-ok turn at v w = ground (arith, eq_refl turn)

accepted :
    (server : Server) (engine : ManagerEngine) (turn : String) (v : Values)
    (requests : List EngineRequest)
    → turn ≢ ""
    → IsWaiting v
    → (w : Values) × ((accept_turn server engine turn v requests).keep_running ≡ ok true)
      × ((accept_turn server engine turn v requests).file ≡ some w)
      × ((accept_turn server engine turn v requests).requests ≡ requests)
      × IsRecorded server turn w
unfolding accept_turn pending_file started_file timed_file
accepted server engine turn v requests named w =
    let pending = pending-ok turn v named w in
    elim (Bool-cases server.wait_turn_started) [
      | inl seen ↦
          let started = started-ok turn server.now v named w in
          (
            started_file turn server.now v,
            simp (accept_turn, pending) (simp seen (simp started refl)),
            simp (accept_turn, pending) (simp seen (simp started refl)),
            simp (accept_turn, pending) (simp seen (simp started refl)),
            inl (seen, refl, refl, refl),
          )
      | inr unseen ↦
          let timed = timed-ok turn server.monotonic v w in
          (
            timed_file turn server.monotonic v,
            simp (accept_turn, pending) (simp unseen (simp timed refl)),
            simp (accept_turn, pending) (simp unseen (simp timed refl)),
            simp (accept_turn, pending) (simp unseen (simp timed refl)),
            inr (unseen, w.unowned, refl, refl, w.requested),
          )
    ]

waiting-decision :
    (v : Values) → IsWaiting v → (decide_manager_action (view_of v) none).action ≡ start
unfolding decide_manager_action
waiting-decision v w = ground (arith, w.unrequested, w.unowned)

owned-none :
    (server : Server) (v : Values) → v.managed_turn_id ≡ none → owned_outcome server v ≡ none
owned-none server v e = ground arith

-- With nothing pending at the app server and no active turn, a tick on a waiting session starts a turn.
tick-start_turn :
    (server : Server) (engine : ManagerEngine) (cleanup : Bool) (v : Values)
    → IsWaiting v
    → server.pending_server_request ≡ none
    → server.active_turn ≡ none
    → tick server engine cleanup v ≡ start_turn server engine v
unfolding tick execute_decision
tick-start_turn server engine cleanup v w quiet idle =
    let decided = waiting-decision v w in
    let unowned = owned-none server v w.unowned in
    simp (tick, quiet, w.unpending)
      (simp (tick, unowned)
        (simp w.no_shutdown (simp idle (simp (execute_decision, decided) refl))))

abbrev pub prepares : ManagerEngine → List EngineRequest
prepares engine = if engine.thread_loaded then [] else resumes_thread ∷ []

request_turn-accept :
    (server : Server) (engine : ManagerEngine) (turn : String) (v : Values)
    (requests : List EngineRequest)
    → server.start_turn ≡ ok (some turn)
    → request_turn server engine v requests
      ≡ accept_turn server engine turn v
          (requests ++ (starts_turn engine.restart_prompt_pending ∷ []))
unfolding request_turn
request_turn-accept server engine turn v requests h = simp (request_turn, h) refl

started_turn :
    (server : Server) (engine : ManagerEngine) (turn : String) (v : Values)
    → IsWaiting v
    → (engine.thread_loaded ≡ true) ⊎ (server.resume_thread ≡ ok tt)
    → server.start_turn ≡ ok (some turn)
    → turn ≢ ""
    → (w : Values) × ((start_turn server engine v).keep_running ≡ ok true)
      × ((start_turn server engine v).file ≡ some w)
      × ((start_turn server engine v).requests
          ≡ prepares engine ++ (starts_turn engine.restart_prompt_pending ∷ []))
      × IsRecorded server turn w
unfolding start_turn
started_turn server engine turn v w loads h named = elim (Bool-cases engine.thread_loaded) [
  | inl l ↦
      simp l (
        rw (request_turn-accept server engine turn v [] h)
          (accepted server engine turn v _ named w))
  | inr l ↦
      let resumed : server.resume_thread ≡ ok tt = elim loads [ inl f ↦ cc | inr f ↦ f ] in
      let ready : ManagerEngine = record engine { thread_loaded = true } in
      simp l (
        simp (start_turn, resumed)
          (rw (request_turn-accept server ready turn v (resumes_thread ∷ []) h)
            (accepted server ready turn v _ named w)))
]

-- A waiting session gets its turn in one tick: where the app server has nothing pending, no turn active
-- and accepts a turn, the tick goes on, has asked for one turn (after resuming the thread if it was not
-- loaded), with the restart notice exactly if a restart is pending, and the file owns the turn, or keeps
-- it pending with its timeout if its start was not seen.
pub handoff-IsRecorded :
    (server : Server) (engine : ManagerEngine) (cleanup : Bool) (turn : String) (v : Values)
    → IsWaiting v
    → server.pending_server_request ≡ none
    → server.active_turn ≡ none
    → (engine.thread_loaded ≡ true) ⊎ (server.resume_thread ≡ ok tt)
    → server.start_turn ≡ ok (some turn)
    → turn ≢ ""
    → (w : Values) × ((tick server engine cleanup v).keep_running ≡ ok true)
      × ((tick server engine cleanup v).file ≡ some w)
      × ((tick server engine cleanup v).requests
          ≡ prepares engine ++ (starts_turn engine.restart_prompt_pending ∷ []))
      × IsRecorded server turn w
handoff-IsRecorded server engine cleanup turn v w quiet idle loads h named =
    rw (tick-start_turn server engine cleanup v w quiet idle)
      (started_turn server engine turn v w loads h named)
