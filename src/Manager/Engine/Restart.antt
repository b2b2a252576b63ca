-- ===== src/Manager/Engine/Restart.antt =====
-- A stalled turn is interrupted by one tick and replaced by the next.
use codex_must_work.Prelude.{
  ℕ, ◌+◌, ◌≡◌, ◌≢◌, ◌⊎◌, refl, String, Bool, true, none, some, [], ◌∷◌, ◌++◌, map, if◌then◌else◌,
  ok, arith,
}
use codex_must_work.Manager.{RestartRequest, Values}
use codex_must_work.Manager.Decision.{interrupt, decide_manager_action}
use codex_must_work.Manager.Interrupt.{Answers, interrupts, execute, cleans_terminals}
use codex_must_work.Manager.Engine.{
  ManagerEngine, Server, Tick, starts_turn, controls, tick, execute_decision, interrupt_turn,
  view_of, owned_outcome,
}
use codex_must_work.Manager.Engine.Handoff.{IsWaiting, IsRecorded, prepares, handoff-IsRecorded}
use codex_must_work.Manager.Engine.Interrupting.{
  IsStalled, IsInterruptible, opt_eq_refl, restarted_file, executed,
}

-- What the app server says at a tick that may interrupt `turn`.
pub record IsRunning (turn : String) (server : Server) : Type 0 where
  pub quiet : server.pending_server_request ≡ none
  pub active : server.active_turn ≡ some turn
  pub unfinished : server.turn_outcome turn ≡ none
  pub interruptible : IsInterruptible turn server.interrupting

stalled-decision :
    (turn : String) (r : RestartRequest) (v : Values)
    → IsStalled turn r v
    → decide_manager_action (view_of v) (some turn)
      ≡ record { action = interrupt; turn_id = some turn; reason_code = none }
unfolding decide_manager_action
stalled-decision turn r v s =
    simp (s.enabled, s.managed, s.requested, s.names, s.owned, opt_eq_refl (some turn)) refl

owned-unfinished :
    (turn : String) (server : Server) (v : Values)
    → v.managed_turn_id ≡ some turn
    → server.turn_outcome turn ≡ none
    → owned_outcome server v ≡ none
owned-unfinished turn server v o u = ground (arith, o, u)

executed_loaded :
    (cleanup : Bool) (turn : String) (r : RestartRequest) (a : Answers) (v : Values)
    → IsStalled turn r v
    → IsInterruptible turn a
    → execute cleanup v.restart_request v.restart_claimed turn a v ≡ record {
      result = ok (record { restarted = true; failure_reason = none });
      file = restarted_file a.claimed_at v;
      requests = interrupts turn ∷ (if cleanup then cleans_terminals ∷ [] else []);
    }
executed_loaded cleanup turn r a v s i =
    simp (s.requested, s.unclaimed) (executed cleanup turn r a v s i)

interrupt_turn-restarts :
    (server : Server) (engine : ManagerEngine) (cleanup : Bool) (turn : String) (r : RestartRequest)
    (v : Values)
    → IsStalled turn r v
    → IsInterruptible turn server.interrupting
    → interrupt_turn server engine cleanup turn v ≡ record {
      keep_running = ok true;
      engine = record engine { restart_prompt_pending = true };
      file = some (restarted_file server.interrupting.claimed_at v);
      requests =
          controls (interrupts turn) ∷ map controls (if cleanup then cleans_terminals ∷ [] else []);
    }
unfolding interrupt_turn
interrupt_turn-restarts server engine cleanup turn r v s i =
    simp (executed_loaded cleanup turn r server.interrupting v s i) (simp s.no_goal refl)

tick-interrupt_turn :
    (server : Server) (engine : ManagerEngine) (cleanup : Bool) (turn : String) (r : RestartRequest)
    (v : Values) (t : Tick)
    → IsStalled turn r v
    → IsRunning turn server
    → interrupt_turn server engine cleanup turn v ≡ t
    → tick server engine cleanup v ≡ t
unfolding tick execute_decision
tick-interrupt_turn server engine cleanup turn r v t s i done =
    let decided = stalled-decision turn r v s in
    let unresolved = owned-unfinished turn server v s.owned i.unfinished in
    simp (tick, i.quiet, s.unpending)
      (simp (tick, unresolved)
        (simp s.no_shutdown (simp i.active (simp (execute_decision, decided) done))))

-- A file after a recorded restart waits for a turn of the manager.
restarted_file-IsWaiting :
    (turn : String) (r : RestartRequest) (at : ℕ) (v : Values)
    → IsStalled turn r v
    → IsWaiting (restarted_file at v)
unfolding restarted_file
restarted_file-IsWaiting turn r at v s = record {
  enabled = s.enabled;
  managed = s.managed;
  requested = refl;
  unowned = refl;
  unpending = refl;
  unrequested = refl;
  no_goal = s.no_goal;
  no_shutdown = s.no_shutdown;
}

-- The app server is idle and accepts the turn `next`.
pub record IsAccepting (engine : ManagerEngine) (next : String) (server : Server) : Type 0 where
  pub quiet : server.pending_server_request ≡ none
  pub idle : server.active_turn ≡ none
  pub loads : (engine.thread_loaded ≡ true) ⊎ (server.resume_thread ≡ ok tt)
  pub accepts : server.start_turn ≡ ok (some next)
  pub named : next ≢ ""

-- A stalled turn is replaced in two ticks. Where the watcher asked for the restart of the owned turn, the
-- evidence holds and the turn, which is active, ends as interrupted within a minute of the claim, the
-- first tick goes on after one interrupt of that turn, and counts the restart in the file. The second
-- tick, on that file and once the app server is idle and accepts a turn, asks for one turn with the
-- restart notice, and records it as owned or as pending.
restart_then_replacement :
    (first second : Server) (engine : ManagerEngine) (cleanup : Bool) (turn next : String)
    (r : RestartRequest) (v : Values)
    → IsStalled turn r v
    → IsRunning turn first
    → IsAccepting engine next second
    → (w : Values) × (u : Values) × (let t = tick first engine cleanup v in
        (t.keep_running ≡ ok true)
        × (t.file ≡ some w)
        × (w.restart_count ≡ v.restart_count + 1)
        × (t.requests
            ≡ controls (interrupts turn)
              ∷ map controls (if cleanup then cleans_terminals ∷ [] else []))
        × (let t' = tick second t.engine cleanup w in
            (t'.keep_running ≡ ok true)
            × (t'.file ≡ some u)
            × (t'.requests ≡ prepares t.engine ++ (starts_turn true ∷ []))
            × IsRecorded second next u))
unfolding restarted_file
restart_then_replacement first second engine cleanup turn next r v s i a =
    let at = first.interrupting.claimed_at in
    let done = interrupt_turn-restarts first engine cleanup turn r v s i.interruptible in
    let waiting = restarted_file-IsWaiting turn r at v s in
    let pending = record engine { restart_prompt_pending = true } in
    let (u, goes, file, asks, kept) =
      handoff-IsRecorded second pending cleanup next (restarted_file at v) waiting a.quiet a.idle
        a.loads a.accepts a.named in
    (
      restarted_file at v,
      u,
      rw (tick-interrupt_turn first engine cleanup turn r v _ s i done)
          (refl, refl, refl, refl, (goes, file, asks, kept)),
    )
