-- ===== src/Registry/Rollback.antt =====
-- `_rollback_attempt` of scripts/daemon_registry.py, with `run_cleanup` of scripts/daemon_cleanup.py:
-- what is undone when the start of a task fails.
use codex_must_work.Prelude.{
  ℕ, ◌≡◌, String, Bool, true, false, Option, none, some, List, [], ◌∷◌, ◌++◌, get, put, ◌∙◌, remove,
  has, get-put, get-remove, has-remove, eq_refl, if◌then◌else◌, arith, refl,
}
use codex_must_work.Manager.{Values}
use codex_must_work.ClientPool.{SharedClientPool, release}
use codex_must_work.Task.{mark_stopped_if_owned}
use codex_must_work.Registry.{DaemonTask, DaemonRegistry, discard_index, is_indexed}

-- A step of a cleanup: its label, and what it does and whether it raises.
abbrev pub CleanupStep {ℓ} : Type ℓ → Type ℓ
CleanupStep S = String × (S → Bool × S)

-- `run_cleanup`: the labels of the steps that raised, and the state after all of them.
unfoldable pub run_cleanup {ℓ} : {S : Type ℓ} → List (CleanupStep S) → S → List String × S
run_cleanup [] s = ([], s)
run_cleanup ((label, step) ∷ steps) s =
    let (raised, after) = step s in
    let (diagnostics, done) = run_cleanup steps after in
    (if raised then label ∷ diagnostics else diagnostics, done)

-- What a start works on.
pub record Attempt : Type 0 where
  pub registry : DaemonRegistry
  pub pool : SharedClientPool

-- Whether the steps raise. The close of a task that raises may have left its file alone, and a release
-- of the client has dropped its reference before its close raises.
pub record Faults : Type 0 where
  pub task_close : Bool
  pub client_reference : Bool
  pub runtime_state : Bool

unfoldable pub close_task : ℕ → String → Bool → Attempt → Bool × Attempt
unfolding get put mark_stopped_if_owned
close_task pid session fails a = elim (get a.registry.files session) [
  | none ↦ (fails, a)
  | some v ↦ if fails then (true, a) else (
    false,
    record a {
      registry = record a.registry {
        files = put session (mark_stopped_if_owned pid v) a.registry.files;
      };
    },
  )
]

-- The file of a session that the attempt created is removed, and any other one is as it was before.
unfoldable pub restore_state : String → Bool → Option Values → Bool → Attempt → Bool × Attempt
unfolding put remove
restore_state session created previous fails a =
    let files =
      if created
      then remove session a.registry.files
      else elim previous [ none ↦ a.registry.files | some v ↦ put session v a.registry.files ] in
    if fails
    then (true, a)
    else (false, record a { registry = record a.registry { files = files } })

-- The steps for a task and a borrowed client, of which either may not be there yet.
unfoldable pub rollback_steps :
    Option DaemonTask
    → Option ℕ
    → ℕ
    → String
    → Bool
    → Option Values
    → Faults
    → List (CleanupStep Attempt)
rollback_steps task borrow pid session created previous faults =
    (elim task [
      | none ↦ []
      | some t ↦
          ("registry_index", λ a. (false, record a { registry = discard_index t a.registry })) ∷ []
    ])
    ++ ((
      "activation_fence",
      λ a. (
        false,
        record a { registry = record a.registry { fences = remove session a.registry.fences } },
      ),
    )
        ∷ [])
    ++ (elim task [
      | none ↦ []
      | some t ↦ ("task_close", close_task pid session faults.task_close) ∷ []
    ])
    ++ (elim borrow [
      | none ↦ []
      | some reference ↦
          (
            "client_reference",
            λ a. (faults.client_reference, record a { pool = (release reference a.pool).1 }),
          )
          ∷ []
    ])
    ++ (("runtime_state", restore_state session created previous faults.runtime_state) ∷ [])

-- `_rollback_attempt`
unfoldable pub rollback_attempt :
    Option DaemonTask
    → Option ℕ
    → ℕ
    → String
    → Bool
    → Option Values
    → Faults
    → Attempt
    → List String × Attempt
unfolding run_cleanup rollback_steps
rollback_attempt task borrow pid session created previous faults a =
    run_cleanup (rollback_steps task borrow pid session created previous faults) a

discarded :
    (task : DaemonTask) (r : DaemonRegistry) → is_indexed task (discard_index task r) ≡ false
unfolding discard_index is_indexed
discarded task r =
    ground (arith, get-remove r.tasks task.session_id task.session_id, eq_refl task.session_id)

is_indexed-tasks :
    (task : DaemonTask) (r s : DaemonRegistry)
    → s.tasks ≡ r.tasks
    → is_indexed task r ≡ false
    → is_indexed task s ≡ false
unfolding is_indexed
is_indexed-tasks task r s e h = rw e h

-- The labels that `run_cleanup` puts together for the two steps that may raise.
labels :
    (first second : Bool) (a b : String)
    → (if first then a ∷ (if second then b ∷ [] else []) else (if second then b ∷ [] else []))
      ≡ (if first then a ∷ [] else []) ++ (if second then b ∷ [] else [])
labels true second a b = refl
labels false second a b = refl

-- The close of a task leaves the index, the fences and the pool alone.
close_task-keeps :
    (pid : ℕ) (session : String) (fails : Bool) (a : Attempt)
    → let (raised, b) = close_task pid session fails a in
      (raised ≡ fails)
      × (b.registry.tasks ≡ a.registry.tasks)
      × (b.registry.fences ≡ a.registry.fences)
      × (b.pool ≡ a.pool)
unfolding close_task
close_task-keeps pid session fails a = ground arith

restore_state-restores :
    (session : String) (created : Bool) (previous : Values) (a : Attempt)
    → let (raised, b) = restore_state session created (some previous) false a in
      (raised ≡ false)
      × (b.registry.tasks ≡ a.registry.tasks)
      × (b.registry.fences ≡ a.registry.fences)
      × (b.pool ≡ a.pool)
      × (get b.registry.files session ≡ (if created then none else some previous))
unfolding restore_state
restore_state-restores session created previous a = ground (
  arith,
  get-put a.registry.files session session previous,
  get-remove a.registry.files session session,
  eq_refl session,
)

-- A start that fails leaves nothing behind, also where the close of the task or of the client raises:
-- after the rollback of a task with its borrowed client, where the last step does not raise, the task is
-- not in the index, its session has no activation fence, the reference of the client is released, the
-- file is the one before the start, or is gone if the start created it, and the report names exactly the
-- steps that raised.
pub rollback_leaves_nothing :
    (task : DaemonTask) (reference pid : ℕ) (created : Bool) (previous : Values) (faults : Faults)
    (a : Attempt)
    → faults.runtime_state ≡ false
    → let (diagnostics, b) =
        rollback_attempt
          (some task)
          (some reference)
          pid
          task.session_id
          created
          (some previous)
          faults
          a in
      (is_indexed task b.registry ≡ false)
      × (has b.registry.fences task.session_id ≡ false)
      × (b.pool ≡ (release reference a.pool).1)
      × (get b.registry.files task.session_id ≡ (if created then none else some previous))
      × (diagnostics
          ≡ (if faults.task_close then "task_close" ∷ [] else [])
            ++ (if faults.client_reference then "client_reference" ∷ [] else []))
unfolding rollback_attempt
rollback_leaves_nothing task reference pid created previous faults a works =
    let session = task.session_id in
    let indexed = record a { registry = discard_index task a.registry } in
    let fenced = record indexed {
      registry = record indexed.registry { fences = remove session indexed.registry.fences };
    } in
    let closed = (close_task pid session faults.task_close fenced).1 in
    let released = record closed { pool = (release reference closed.pool).1 } in
    let (told, tasks, fences, pool) = close_task-keeps pid session faults.task_close fenced in
    let (quiet, tasks', fences', pool', files) =
      restore_state-restores session created previous released in
    simp works (
      (
        is_indexed-tasks task indexed.registry
            (restore_state session created (some previous) false released).1.registry
            (tasks' ∙ tasks) (discarded task a.registry),
        rw (fences', fences, has-remove indexed.registry.fences session session, eq_refl session)
            refl,
        rw (pool', pool) refl,
        files,
        simp (told, quiet)
            (labels faults.task_close faults.client_reference "task_close" "client_reference"),
      ))
