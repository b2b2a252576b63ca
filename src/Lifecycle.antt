-- ===== src/Lifecycle.antt =====
-- `DaemonLifecycle` of scripts/daemon_lifecycle.py: the shutdown of the daemon, which waits for the
-- operations that were admitted before it. A call under the lock is one step; a thread that waits for
-- the condition tries its step again. A thread has a number, its identity.
pub mod Threads
pub mod Shutdown
pub mod Reports
mod Tests
use codex_must_work.Prelude.{
  ℕ, ◌+◌, ◌-◌, String, Bool, true, false, not, ◌&&◌, Option, none, some, List, [], ◌∷◌, ◌++◌, ◌==◌,
  leb, length, if◌then◌else◌,
}

-- `close_report` has the diagnostics of the report, `last_error` the text of the latest error.
pub record DaemonLifecycle : Type 0 where
  pub last_error : Option String
  pub active_admissions : ℕ
  pub close_started : Bool
  pub close_finished : Bool
  pub close_owner : Option ℕ
  pub close_report : List String

abbrev pub open_lifecycle : DaemonLifecycle
open_lifecycle = record {
  last_error = none;
  active_admissions = 0;
  close_started = false;
  close_finished = false;
  close_owner = none;
  close_report = [];
}

-- `begin_admission`, with whether it admits.
unfoldable pub begin_admission : DaemonLifecycle → Bool × DaemonLifecycle
begin_admission l =
    if l.close_started
    then (false, l)
    else (true, record l { active_admissions = l.active_admissions + 1 })

-- `end_admission`, with whether the close has started. A number that went below zero is not modelled:
-- an admission is released once.
unfoldable pub end_admission : DaemonLifecycle → Bool × DaemonLifecycle
end_admission l = (l.close_started, record l { active_admissions = l.active_admissions - 1 })

-- What a thread that closes, or waits for the close, is told: a report, to wait, or that it is the one
-- that closes.
pub data Answer : Type 0 where
  reports : List String → Answer
  waits owns : Answer

-- `self._close_owner == owner and not self._close_finished`
abbrev pub is_closing : ℕ → DaemonLifecycle → Bool
is_closing thread l = elim l.close_owner [
  | none ↦ false
  | some owner ↦ owner == thread && not l.close_finished
]

-- `wait_closed`, one round of its loop.
unfoldable pub wait_closed : ℕ → DaemonLifecycle → Answer
wait_closed thread l =
    if is_closing thread l
    then reports []
    else if l.close_finished
    then reports l.close_report
    else waits

-- `close`, up to its wait for the admissions.
unfoldable pub begin_close : ℕ → DaemonLifecycle → Answer × DaemonLifecycle
unfolding wait_closed
begin_close thread l =
    if l.close_started
    then (wait_closed thread l, l)
    else (owns, record l { close_started = true; close_owner = some thread })

-- The wait of `close` is over.
unfoldable pub is_drained : DaemonLifecycle → Bool
is_drained l = l.active_admissions == 0

-- `close`, after the resources are closed.
unfoldable pub finish_close : List String → DaemonLifecycle → DaemonLifecycle
finish_close report l = record l {
  close_report = report;
  close_finished = true;
  close_owner = none;
}

abbrev pub max_diagnostics : ℕ
max_diagnostics = 3

-- `diagnostics[-1] = text`
abbrev replace_last : String → List String → List String
replace_last text [] = []
replace_last text (d ∷ []) = text ∷ []
replace_last text (d ∷ (d' ∷ ds)) = d ∷ replace_last text (d' ∷ ds)

-- `_append_reason`, and `_append_diagnostic` with the text that it forms.
unfoldable pub append_reason : List String → String → List String
append_reason diagnostics reason =
    if leb max_diagnostics (length diagnostics)
    then replace_last "additional_close_failures" diagnostics
    else diagnostics ++ (reason ∷ [])

-- A call that may have failed, with the text of its diagnostic.
unfoldable pub append_failure : List String → Option String → List String
unfolding append_reason
append_failure diagnostics none = diagnostics
append_failure diagnostics (some reason) = append_reason diagnostics reason

-- `close_detached`, for what the close of every task and of the client reports.
unfoldable pub close_tasks : List String → List (Option String) → List String
unfolding append_failure
close_tasks diagnostics [] = diagnostics
close_tasks diagnostics (failure ∷ failures) =
    close_tasks (append_failure diagnostics failure) failures

unfoldable pub close_detached : List (Option String) → Option String → List String
unfolding close_tasks append_failure
close_detached tasks client = append_failure (close_tasks [] tasks) client

unfoldable pub append_reasons : List String → List String → List String
unfolding append_reason
append_reasons diagnostics [] = diagnostics
append_reasons diagnostics (reason ∷ reasons) =
    append_reasons (append_reason diagnostics reason) reasons

-- `_close_owned_resources`: what the scheduler reports, and the registry, which hands out its tasks or
-- fails.
unfoldable pub close_owned_resources :
    Option String → Option String → List (Option String) → Option String → List String
unfolding append_reasons append_failure close_detached
close_owned_resources scheduler registry tasks client =
    let started = append_failure (append_failure [] scheduler) registry in
    elim registry [
      | none ↦ append_reasons started (close_detached tasks client)
      | some reason ↦ append_reasons started (close_detached [] none)
    ]
