-- ===== src/Lifecycle/Tests.antt =====
-- A shutdown that waits for one admitted operation, and its report.
use codex_must_work.Prelude.{◌≡◌, refl, none, some, [], ◌∷◌, true, false}
use codex_must_work.Lifecycle.{
  begin_admission, begin_close, end_admission, is_drained, close_owned_resources,
}
use codex_must_work.Lifecycle.Threads.{
  Machine, machine, draining, closing, closed, admits, leaves, begins, drains, Reachable, starts,
  steps,
}
use codex_must_work.Lifecycle.Shutdown.{closes_alone}

-- Thread 1 is admitted, thread 2 begins to close, thread 1 leaves.
abbrev started : Machine
started = record machine {
  lifecycle = record machine.lifecycle { close_started = true; close_owner = some 2 };
  phase = draining 2;
}

started-Reachable : Reachable started
unfolding begin_admission begin_close end_admission
started-Reachable = steps (steps (steps starts (admits 1 refl)) (begins 2 refl)) (leaves 1 refl)

abbrev shutting : Machine
shutting = record started { phase = closing 2; closings = 1 }

shutting-Reachable : Reachable shutting
unfolding is_drained
shutting-Reachable = steps started-Reachable (drains 2 refl refl)

abbrev shut : Machine
shut = record shutting {
  lifecycle = record shutting.lifecycle {
    close_report = "task_close_failed:OSError" ∷ [];
    close_finished = true;
    close_owner = none;
  };
  phase = closed;
}

closes_alone_example :
    (shutting.closings ≡ 1)
    × (shutting.operations ≡ [])
    × ((begin_admission shutting.lifecycle).0 ≡ false)
closes_alone_example = closes_alone shutting 2 shutting-Reachable refl

four_failures :
    close_owned_resources (some "s") none (some "a" ∷ none ∷ some "b" ∷ []) (some "c")
    ≡ "s" ∷ "a" ∷ "additional_close_failures" ∷ []
unfolding close_owned_resources
four_failures = refl
