-- ===== src/Lifecycle/Reports.antt =====
-- What the report of a close of scripts/daemon_lifecycle.py says.
use codex_must_work.Prelude.{
  ℕ, ◌+◌, ◌≡◌, suc, refl, String, Option, none, some, List, [], ◌∷◌, length, length-append, leb,
  if◌then◌else◌, arith,
}
use codex_must_work.Lifecycle.{
  append_reason, append_failure, close_tasks, close_detached, append_reasons, close_owned_resources,
  max_diagnostics, replace_last,
}

abbrev cap : ℕ → ℕ
cap n = if leb max_diagnostics n then max_diagnostics else n

abbrev pub failures_of : Option String → ℕ
failures_of none = 0
failures_of (some reason) = 1

abbrev pub failures : List (Option String) → ℕ
failures [] = 0
failures (o ∷ os) = failures_of o + failures os

length-replace_last : (text : String) (ds : List String) → length (replace_last text ds) ≡ length ds
length-replace_last text [] = refl
length-replace_last text (d ∷ []) = refl
length-replace_last text (d ∷ (d' ∷ ds)) = omega (arith, length-replace_last text (d' ∷ ds))

length-append_reason :
    (ds : List String) (reason : String) (n : ℕ)
    → length ds ≡ cap n
    → length (append_reason ds reason) ≡ cap (suc n)
unfolding append_reason
length-append_reason ds reason n e =
    ground
      (arith, length-replace_last "additional_close_failures" ds, length-append ds (reason ∷ []))

length-append_failure :
    (ds : List String) (failure : Option String) (n : ℕ)
    → length ds ≡ cap n
    → length (append_failure ds failure) ≡ cap (failures_of failure + n)
unfolding append_failure
length-append_failure ds none n e = ground arith
length-append_failure ds (some reason) n e = ground (arith, length-append_reason ds reason n e)

length-close_tasks :
    (ds : List String) (os : List (Option String)) (n : ℕ)
    → length ds ≡ cap n
    → length (close_tasks ds os) ≡ cap (failures os + n)
unfolding close_tasks
length-close_tasks ds [] n e = ground arith
length-close_tasks ds (o ∷ os) n e = ground (
  arith,
  length-close_tasks (append_failure ds o) os (failures_of o + n) (length-append_failure ds o n e),
)

length-append_reasons :
    (ds reasons : List String) (n : ℕ)
    → length ds ≡ cap n
    → length (append_reasons ds reasons) ≡ cap (length reasons + n)
unfolding append_reasons
length-append_reasons ds [] n e = ground arith
length-append_reasons ds (reason ∷ reasons) n e = ground (
  arith,
  length-append_reasons (append_reason ds reason) reasons (suc n)
      (length-append_reason ds reason n e),
)

length-close_detached :
    (tasks : List (Option String)) (client : Option String)
    → length (close_detached tasks client) ≡ cap (failures_of client + failures tasks)
unfolding close_detached
length-close_detached tasks client =
    length-append_failure (close_tasks [] tasks) client (failures tasks)
      (ground (arith, length-close_tasks [] tasks 0 refl))

-- The failures of a close: a registry that fails hands out no task to close.
abbrev pub close_failures : Option String → Option String → List (Option String) → Option String → ℕ
close_failures scheduler none tasks client =
    failures_of scheduler + failures_of client + failures tasks
close_failures scheduler (some reason) tasks client = failures_of scheduler + 1

-- The report counts the failures up to three: it has one diagnostic for each close that failed where
-- these are at most three, and three otherwise; the closes are those of the scheduler, the registry and,
-- where the registry did not fail, of the client and every task.
report_counts_failures :
    (scheduler registry : Option String) (tasks : List (Option String)) (client : Option String)
    → length (close_owned_resources scheduler registry tasks client) ≡ (
        let n = close_failures scheduler registry tasks client in
        if leb max_diagnostics n then max_diagnostics else n)
unfolding close_owned_resources
report_counts_failures scheduler none tasks client =
    let started =
      length-append_failure (append_failure [] scheduler) none (failures_of scheduler)
        (ground (arith, length-append_failure [] scheduler 0 refl)) in
    ground (
      arith,
      length-append_reasons (append_failure (append_failure [] scheduler) none)
          (close_detached tasks client) (0 + failures_of scheduler) started,
      length-close_detached tasks client,
    )
report_counts_failures scheduler (some reason) tasks client =
    let started =
      length-append_failure (append_failure [] scheduler) (some reason) (failures_of scheduler)
        (ground (arith, length-append_failure [] scheduler 0 refl)) in
    ground (
      arith,
      length-append_reasons (append_failure (append_failure [] scheduler) (some reason))
          (close_detached [] none) (1 + failures_of scheduler) started,
      length-close_detached [] none,
    )
