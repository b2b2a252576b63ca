-- ===== src/Silence/Tests.antt =====
-- A silence that warns, restarts once, and stays quiet.
use codex_must_work.Prelude.{all, ◌≡◌, ℕ, refl, true, false, List, [], ◌∷◌, map}
use codex_must_work.Detector.Runs as Runs
use codex_must_work.Detector.{item}
use codex_must_work.Silence.{
  SilenceState, Thresholds, RestartGate, initial_state, evaluate, is_effective, auto_restart,
  warning, no_action,
}
use codex_must_work.Silence.Gate.{evaluations}
use codex_must_work.Silence.Stall.{
  is_ungated, evaluates, progresses, Input, run, stall_state, stall_thresholds, stall_input,
  stall_action, run-stall,
}

abbrev limits : Thresholds
limits = record { warning = 10; restart = 20 }

abbrev gate : RestartGate
gate = record {
  requested_by_user = true;
  capability_ready = true;
  latest_event_check_passed = true;
  target_generation_verified = true;
  clock_reliable = true;
  restart_eligible_siblings = 1;
}

abbrev shut_gate : RestartGate
shut_gate = record gate { clock_reliable = false }

abbrev warned : SilenceState
unfolding initial_state
warned = record (initial_state 0) { warning_emitted = true }

abbrev ticks : List (ℕ × RestartGate)
ticks = (12, gate) ∷ (25, gate) ∷ (40, gate) ∷ []

restarts_once : evaluations limits (initial_state 0) ticks ≡ warning ∷ auto_restart ∷ no_action ∷ []
unfolding evaluations initial_state evaluate
restarts_once = refl

abbrev inputs : List Input
inputs = evaluates 12 shut_gate ∷ progresses item 14 ∷ evaluates 40 shut_gate ∷ []

inputs_ungated : all is_ungated inputs ≡ true
unfolding is_effective
inputs_ungated = refl

run-stall_example :
    (stall_state (run limits (initial_state 0) inputs).0
      ≡ Runs.run (stall_thresholds limits) (stall_state (initial_state 0)) (map stall_input inputs))
    × (map stall_action (run limits (initial_state 0) inputs).1
        ≡ Runs.actions
            (stall_thresholds limits)
            (stall_state (initial_state 0))
            (map stall_input inputs))
run-stall_example = run-stall limits (initial_state 0) inputs inputs_ungated
