-- ===== src/Registry/Tests.antt =====
-- Two managed tasks, the turns of their files and an interrupt of a turn that is not theirs.
use codex_must_work.Prelude.{
  has, ◌++◌, if◌then◌else◌, ok, ◌≡◌, ℕ, refl, String, true, false, some, none, List, [], ◌∷◌, Dict,
  get, arith, any, all, ◌+◌,
}
use codex_must_work.Manager.{Values}
use codex_must_work.Manager.Ownership.{enabled_values}
use codex_must_work.Registry.{DaemonTask, DaemonRegistry, is_indexed, init, correlation_expiry}
use codex_must_work.Registry.Owners.{refresh_turn_owners}
use codex_must_work.Registry.Routing.{AppServerActivity, Reading, turn_started, selected_locked}
use codex_must_work.Registry.Decided.{IsDecided, selected_locked-IsDecided}
use codex_must_work.Registry.Interrupts.{claims, enter_interrupt, finish_interrupt}
use codex_must_work.Registry.Histories.{Step, detaches, enters, finishes, selects, steps}
use codex_must_work.Registry.Once.{is_claim, ends_attempt, one_attempt_at_a_time}
use codex_must_work.ClientPool.{release, init as no_clients}
use codex_must_work.Registry.Rollback.{Attempt, Faults, rollback_attempt, rollback_leaves_nothing}
use codex_must_work.Registry.Bounds.{IsBounded, steps-init-IsBounded}
use codex_must_work.Registry.Expiry.{is_before, not_asked_again}

abbrev task : ℕ → String → DaemonTask
task identity session = record { identity = identity; session_id = session; managed = true }

file : String → String → Values
unfolding enabled_values
file session turn = record (enabled_values session true false) { managed_turn_id = some turn }

abbrev files : Dict Values
files = ("s", file "s" "t1") ∷ ("u", file "u" "t2") ∷ []

abbrev daemon : DaemonRegistry
daemon = record (init files) {
  tasks = ("s", task 1 "s") ∷ ("u", task 2 "u") ∷ [];
  interrupt_attempts = ("t8", 7) ∷ [];
  next_event = 8;
}

abbrev reading : Reading
reading = record { clock = 5; now = 9; between = λ found. found }

abbrev stray : AppServerActivity
stray = record { kind = turn_started; thread_id = some "u"; turn_id = some "t9"; outcome = none }

refresh_ok : (refresh_turn_owners daemon).0 ≡ none
unfolding refresh_turn_owners file
refresh_ok = refl

owner_known : get (refresh_turn_owners daemon).1.turn_owners "t2" ≡ some (some (task 2 "u"))
unfolding refresh_turn_owners file enabled_values
owner_known = refl

stray_interrupted : (selected_locked stray reading daemon).0 ≡ ok (none, some (some "u", "t9"))
unfolding selected_locked file enabled_values
stray_interrupted = refl

selected_locked-IsDecided_example : IsDecided files "t9" (selected_locked stray reading daemon)
selected_locked-IsDecided_example = selected_locked-IsDecided stray "t9" reading daemon refl refl

abbrev others : List Step
others =
    enters 2 "t9"
    ∷ enters 3 "t7"
    ∷ finishes 4 "t7" 9 true
    ∷ selects stray reading
    ∷ detaches (task 1 "s" ∷ [])
    ∷ []

claimed : (enter_interrupt 1 "t9" daemon).0 ≡ claims 8
unfolding enter_interrupt file enabled_values
claimed = refl

others_go_on : any (ends_attempt "t9" 8) others ≡ false
others_go_on = refl

one_attempt_at_a_time_example :
    is_claim (enter_interrupt 6 "t9" (steps (enter_interrupt 1 "t9" daemon).1 others)).0 ≡ false
one_attempt_at_a_time_example = one_attempt_at_a_time 1 6 "t9" 8 daemon others claimed others_go_on

attempted : get daemon.interrupt_attempts "t8" ≡ some 7
unfolding get
attempted = refl

others_soon : all (is_before (5 + correlation_expiry)) others ≡ true
others_soon = refl

not_asked_again_example :
    is_claim
      (enter_interrupt 600000005 "t8" (steps (finish_interrupt 5 "t8" 7 true daemon) others)).0
    ≡ false
not_asked_again_example =
    not_asked_again 5 600000005 "t8" 7 daemon others attempted others_soon (omega arith)

-- A start of the task of session "s" that fails after the file has been marked, with a client whose
-- close raises.
abbrev attempt : Attempt
attempt = record { registry = daemon; pool = no_clients }

abbrev faults : Faults
faults = record { task_close = false; client_reference = true; runtime_state = false }

rollback_leaves_nothing_example :
    let (diagnostics, b) =
      rollback_attempt
        (some (task 1 "s"))
        (some 0)
        7
        "s"
        false
        (some (file "s" "t1"))
        faults
        attempt in
    (is_indexed (task 1 "s") b.registry ≡ false)
    × (has b.registry.fences "s" ≡ false)
    × (b.pool ≡ (release 0 no_clients).1)
    × (get b.registry.files "s" ≡ (if false then none else some (file "s" "t1")))
    × (diagnostics ≡ [] ++ ("client_reference" ∷ []))
rollback_leaves_nothing_example =
    rollback_leaves_nothing (task 1 "s") 0 7 false (file "s" "t1") faults attempt refl

steps-init-IsBounded_example : IsBounded (steps (init files) others)
steps-init-IsBounded_example = steps-init-IsBounded files others
