-- ===== src/Scheduler/Tests.antt =====
-- A scheduler at work, and the theorems at concrete inputs.
use codex_must_work.Prelude.{
  ◌≡◌, ◌≢◌, refl, String, some, List, [], ◌∷◌, map, arith, eq_iff, get, put,
}
use codex_must_work.Scheduler.{
  Entry, DeadlineScheduler, init, schedule, cancel, runs, next_entry, raised, finish_callback,
}
use codex_must_work.Scheduler.Due.{due_runs}
use codex_must_work.Scheduler.Histories.{
  history-init-IsSound, Op, schedules, cancels, takes, finishes, perform, fires, history, fired,
}
use codex_must_work.Scheduler.Once.{Distinct, fired_once}

abbrev script : List Op
script =
    schedules "a" 5 1
    ∷ schedules "b" 3 2
    ∷ schedules "a" 7 3
    ∷ takes 4
    ∷ finishes raised
    ∷ cancels "b"
    ∷ takes 6
    ∷ takes 7
    ∷ takes 9
    ∷ []

-- The replaced callback 1 does not run.
script_fires : map (λ (e : Entry). e.callback) (fired init script) ≡ 2 ∷ 3 ∷ []
unfolding fired fires perform init schedule cancel next_entry finish_callback get put
script_fires = refl

fired_once_example : Distinct (fired init script)
fired_once_example = fired_once script

abbrev ready : DeadlineScheduler
ready = history init (schedules "a" 5 1 ∷ schedules "b" 3 2 ∷ [])

abbrev entry_b : Entry
entry_b = record { deadline = 3; sequence = 2; key = "b"; generation = 2; callback = 2 }

abbrev entry_a : Entry
entry_a = record { deadline = 5; sequence = 1; key = "a"; generation = 1; callback = 1 }

abbrev ran : DeadlineScheduler
ran = record ready { entries = entry_a ∷ []; generations = ("a", 1) ∷ [] }

due_runs_example :
    (e : Entry) × (s' : DeadlineScheduler) × (next_entry 1 6 ready ≡ some (runs e, s'))
unfolding history perform init schedule get put
due_runs_example =
    due_runs 0 6 ready "a" 1 (history-init-IsSound (schedules "a" 5 1 ∷ schedules "b" 3 2 ∷ []))
      refl refl refl

abbrev renewed : DeadlineScheduler
renewed = history init (schedules "b" 3 1 ∷ schedules "b" 3 2 ∷ [])

abbrev first_b : DeadlineScheduler
first_b = history init (schedules "b" 3 1 ∷ [])

-- The entry of the first registration is still in the heap, and is stale.
abbrev renewed_ran : DeadlineScheduler
renewed_ran = record renewed { entries = []; generations = [] }

a-ne-empty : ◌≢◌ {A = String} "a" ""
a-ne-empty = ground (arith, eq_iff "a" "")
