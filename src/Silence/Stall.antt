-- ===== src/Silence/Stall.antt =====
-- Without an effective gate, scripts/silence.py is the detector of scripts/stall_detector.py.
use codex_must_work.Prelude.{
  ℕ, ◌≡◌, ap, subst, refl, Bool, true, false, not, List, [], ◌∷◌, map, all, arith,
}
use codex_must_work.Detector as D
use codex_must_work.Detector.Runs as Runs
use codex_must_work.Detector.{ProgressKind, item, delta, tool_result, is_terminal, is_paused}
use codex_must_work.Silence.{
  Evaluation, SilenceState, Thresholds, RestartGate, MonitorPhase, Action, evaluate,
  record_progress, is_effective, healthy, paused, silent_warned, restart_eligible, restarted,
  terminal, no_action, warning, restart_limited, auto_restart, stop, latest_progress_at,
}

abbrev pub stall_phase : MonitorPhase → D.MonitorPhase
stall_phase healthy = D.healthy
stall_phase paused = D.paused
stall_phase silent_warned = D.silent_warned
stall_phase restart_eligible = D.MonitorPhase.critical
stall_phase restarted = D.MonitorPhase.critical
stall_phase terminal = D.terminal

abbrev pub stall_action : Action → D.Action
stall_action no_action = D.no_action
stall_action warning = D.warning
stall_action restart_limited = D.Action.critical
stall_action auto_restart = D.Action.critical
stall_action stop = D.stop

abbrev pub stall_thresholds : Thresholds → D.Thresholds
stall_thresholds t = record { warning = t.warning; critical = t.restart }

-- The state without what tells a restart from a critical stall.
abbrev pub stall_state : SilenceState → D.SilenceState
stall_state s = record {
  phase = stall_phase s.phase;
  silence_id = s.silence_id;
  silence_sequence = s.silence_sequence;
  silence_started_at = s.silence_started_at;
  waits = s.waits;
  item_at = s.item_at;
  delta_at = s.delta_at;
  tool_result_at = s.tool_result_at;
  warning_emitted = s.warning_emitted;
  critical_emitted = s.restart_eligibility_emitted;
}

abbrev stall_evaluation : Evaluation → D.Evaluation
stall_evaluation e = record { state = stall_state e.state; action = stall_action e.action }

evaluate-stall :
    (s : SilenceState) (now : ℕ) (t : Thresholds) (gate : RestartGate)
    → is_effective gate ≡ false
    → stall_evaluation (evaluate s now t gate) ≡ D.evaluate (stall_state s) now (stall_thresholds t)
unfolding evaluate D.evaluate D.latest_progress_at latest_progress_at
evaluate-stall s now t gate h = ground arith

record_progress-stall :
    (s : SilenceState) (kind : ProgressKind) (at : ℕ)
    → stall_state (record_progress s kind at) ≡ D.record_progress (stall_state s) kind at
unfolding record_progress D.record_progress
record_progress-stall s item at = ground arith
record_progress-stall s delta at = ground arith
record_progress-stall s tool_result at = ground arith

-- A call: an evaluation with its gate, or progress.
pub data Input : Type 0 where
  evaluates : ℕ → RestartGate → Input
  progresses : ProgressKind → ℕ → Input

abbrev pub is_ungated : Input → Bool
is_ungated (evaluates now gate) = not (is_effective gate)
is_ungated (progresses kind at) = true

abbrev pub stall_input : Input → Runs.Input
stall_input (evaluates now gate) = Runs.evaluates now
stall_input (progresses kind at) = Runs.progresses kind at

unfoldable pub run : Thresholds → SilenceState → List Input → SilenceState × List Action
run t s [] = (s, [])
run t s (evaluates now gate ∷ inputs) =
    let e = evaluate s now t gate in
    let (after, actions) = run t e.state inputs in (after, e.action ∷ actions)
run t s (progresses kind at ∷ inputs) =
    let (after, actions) = run t (record_progress s kind at) inputs in (after, no_action ∷ actions)

-- Where no gate is effective, the two detectors agree: from states that correspond, any sequence of
-- evaluations and progress leads to states that correspond, and returns the same actions, where a
-- restart that is only eligible is a critical stall.
pub run-stall :
    (t : Thresholds) (s : SilenceState) (inputs : List Input)
    → all is_ungated inputs ≡ true
    → (stall_state (run t s inputs).0
        ≡ Runs.run (stall_thresholds t) (stall_state s) (map stall_input inputs))
      × (map stall_action (run t s inputs).1
          ≡ Runs.actions (stall_thresholds t) (stall_state s) (map stall_input inputs))
unfolding run Runs.run Runs.actions Runs.step
run-stall t s [] h = (refl, refl)
run-stall t s (evaluates now gate ∷ inputs) h =
    let e = evaluate s now t gate in
    let (same, told) = run-stall t e.state inputs (ground arith) in
    let agrees = evaluate-stall s now t gate (ground arith) in
    let rest = map stall_input inputs in
    subst
      (λ x.
        (stall_state (run t e.state inputs).0 ≡ Runs.run (stall_thresholds t) x.state rest)
        × (stall_action e.action ∷ map stall_action (run t e.state inputs).1
            ≡ x.action ∷ Runs.actions (stall_thresholds t) x.state rest))
      agrees (same, ap (λ actions. stall_action e.action ∷ actions) told)
run-stall t s (progresses kind at ∷ inputs) h =
    let (same, told) = run-stall t (record_progress s kind at) inputs (ground arith) in
    let rest = map stall_input inputs in
    let after = run t (record_progress s kind at) inputs in
    subst
      (λ x.
        (stall_state after.0 ≡ Runs.run (stall_thresholds t) x rest)
        × (D.no_action ∷ map stall_action after.1
            ≡ D.no_action ∷ Runs.actions (stall_thresholds t) x rest))
      (record_progress-stall s kind at) (same, ap (λ actions. D.no_action ∷ actions) told)
