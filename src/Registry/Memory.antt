-- ===== src/Registry/Memory.antt =====
-- Routing and the task index of scripts/daemon_registry.py leave the memory of interrupts alone.
use codex_must_work.Prelude.{
  remove, ℕ, ◌≡◌, ◌∙◌, refl, String, Option, none, some, List, [], ◌∷◌, Dict, get, arith,
  Option-cases, Bool-cases, inl, inr,
}
use codex_must_work.Manager.{Values}
use codex_must_work.Registry.{
  DaemonTask, DaemonRegistry, discard_index, detach, is_indexed, diagnose,
}
use codex_must_work.Registry.Owners.{refresh_turn_owners}
use codex_must_work.Registry.Routing.{
  AppServerActivity, Reading, adopt, adopt_activation, retained, expire_pending_turn,
  record_started, claim_unowned, claim_found, claim_started, select, selected_locked, own, cleared,
  after_refresh,
}

-- What the registry remembers of interrupts.
abbrev pub memory : DaemonRegistry → Dict ℕ × Dict ℕ × ℕ
memory r = (r.interrupted_turns, r.interrupt_attempts, r.next_event)

pub memory-refresh_turn_owners : (r : DaemonRegistry) → memory (refresh_turn_owners r).1 ≡ memory r
unfolding refresh_turn_owners
memory-refresh_turn_owners r = ground arith

pub memory-discard_index :
    (task : DaemonTask) (r : DaemonRegistry) → memory (discard_index task r) ≡ memory r
unfolding discard_index
memory-discard_index task r = ground arith

pub memory-detach :
    (tasks : List DaemonTask) (r : DaemonRegistry) → memory (detach tasks r).2 ≡ memory r
unfolding detach
memory-detach [] r = refl
memory-detach (task ∷ tasks) r = elim (Bool-cases (is_indexed task r)) [
  | inl found ↦ simp found (
      memory-detach tasks (record r {
        tasks = remove task.session_id r.tasks;
        fences = remove task.session_id r.fences;
      }))
  | inr absent ↦ simp absent (memory-detach tasks r)
]

memory-adopt :
    (task : DaemonTask) (turn : String) (v : Values) (reading : Reading) (r : DaemonRegistry)
    → memory (adopt task turn v reading r).1 ≡ memory r
unfolding adopt adopt_activation
memory-adopt task turn v reading r = ground arith

memory-retained :
    (session turn : String) (o : Option String × DaemonRegistry)
    → memory (retained session turn o).1 ≡ memory o.1
unfolding retained
memory-retained session turn (some reason, r) = refl
memory-retained session turn (none, r) = ground arith

memory-expire_pending_turn :
    (task : DaemonTask) (turn : String) (reading : Reading) (r : DaemonRegistry)
    → memory (expire_pending_turn task turn reading r).1 ≡ memory r
unfolding expire_pending_turn
memory-expire_pending_turn task turn reading r =
    let (files, done) = cleared task turn (reading.between r.files) in
    let written : DaemonRegistry = record r { files = files } in
    elim (Bool-cases done) [
      | inl claimed ↦ simp claimed refl
      | inr lost ↦ simp lost (
          memory-retained task.session_id turn (refresh_turn_owners written)
          ∙ memory-refresh_turn_owners written)
    ]

memory-record_started :
    (task : DaemonTask) (turn : String) (reading : Reading) (r : DaemonRegistry)
    → memory (record_started task turn reading r).1 ≡ memory r
unfolding record_started own
memory-record_started task turn reading r = ground arith

memory-claim_unowned :
    (task : DaemonTask) (thread : Option String) (turn : String) (v : Values) (reading : Reading)
    (r : DaemonRegistry)
    → memory (claim_unowned task thread turn v reading r).1 ≡ memory r
unfolding claim_unowned own
memory-claim_unowned task thread turn v reading r =
    let tried = (adopt task turn v reading r).1 in
    let kept = memory-adopt task turn v reading r in
    ground (
      arith,
      kept,
      memory-expire_pending_turn task turn reading tried,
      memory-record_started task turn reading tried,
    )

-- `claim_started` for a turn.
memory-claim_found :
    (found : Option DaemonTask) (activity : AppServerActivity) (turn : String) (reading : Reading)
    (r : DaemonRegistry)
    → memory (claim_found found activity.thread_id turn reading r).1 ≡ memory r
unfolding claim_found
memory-claim_found none activity turn reading r = refl
memory-claim_found (some task) activity turn reading r =
    elim (Option-cases (get r.files task.session_id)) [
      | inl e ↦ simp (claim_found, e) refl
      | inr (v, e) ↦
          simp (claim_found, e)
            (ground (arith, memory-claim_unowned task activity.thread_id turn v reading r))
    ]

memory-claim_started :
    (found : Option DaemonTask) (activity : AppServerActivity) (reading : Reading)
    (r : DaemonRegistry)
    → memory (claim_started found activity reading r).1 ≡ memory r
unfolding claim_started diagnose
memory-claim_started found activity reading r = elim (Option-cases activity.turn_id) [
  | inl e ↦ simp (claim_started, e) refl
  | inr (turn, e) ↦ simp (claim_started, e) (memory-claim_found found activity turn reading r)
]

memory-select :
    (activity : AppServerActivity) (reading : Reading) (r : DaemonRegistry)
    → memory (select activity reading r).1 ≡ memory r
unfolding select diagnose
memory-select activity reading r = grind (arith, memory-claim_started)

pub memory-selected_locked :
    (activity : AppServerActivity) (reading : Reading) (r : DaemonRegistry)
    → memory (selected_locked activity reading r).1 ≡ memory r
unfolding selected_locked after_refresh
memory-selected_locked activity reading r = elim (Option-cases (refresh_turn_owners r).0) [
  | inl e ↦
      simp (after_refresh, e)
        (memory-select activity reading (refresh_turn_owners r).1 ∙ memory-refresh_turn_owners r)
  | inr (reason, e) ↦ simp (after_refresh, e) (memory-refresh_turn_owners r)
]
