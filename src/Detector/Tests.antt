-- ===== src/Detector/Tests.antt =====
-- The detector's theorems at concrete inputs, and runs of it.
use codex_must_work.Prelude.{◌≡◌, refl, true, false, some, List, [], ◌∷◌, arith}
use codex_must_work.Detector.{
  Option, ProgressKind, healthy, Action, no_action, warning, Thresholds, WaitState, no_wait,
  SilenceState, initial_state, is_terminal, is_paused, latest_progress_at, record_progress,
  set_wait_state, evaluate,
}
use codex_must_work.Detector.Runs.{Input, evaluates, progresses, waits_become, step, actions}
use codex_must_work.Detector.Escalation.{silence_escalates}
use codex_must_work.Detector.Waits.{wait_counts_as_silence}

abbrev five_ten : Thresholds
five_ten = record { warning = 5; critical = 10 }

abbrev approval : WaitState
approval = record no_wait { waiting_for_approval = true }

abbrev started : SilenceState
started = record {
  phase = healthy;
  silence_id = record { sequence = 0; at = 3 };
  silence_sequence = 0;
  silence_started_at = 3;
  waits = no_wait;
  item_at = some 3;
  delta_at = Option.none;
  tool_result_at = Option.none;
  warning_emitted = false;
  critical_emitted = false;
}

abbrev session : List Input
session =
    evaluates 4
    ∷ evaluates 8
    ∷ evaluates 9
    ∷ evaluates 13
    ∷ evaluates 20
    ∷ progresses ProgressKind.delta 21
    ∷ waits_become approval true
    ∷ evaluates 40
    ∷ waits_become no_wait true
    ∷ evaluates 41
    ∷ []

actions-session :
    actions five_ten (initial_state 3) session
    ≡ no_action ∷ warning ∷ no_action ∷ Action.critical ∷ no_action ∷ no_action ∷ no_action
      ∷ no_action ∷ no_action ∷ warning ∷ []
unfolding actions step initial_state record_progress set_wait_state evaluate
actions-session = refl

silence_escalates_example : (evaluate started 8 five_ten).action ≡ warning
unfolding is_terminal is_paused latest_progress_at
silence_escalates_example =
    (silence_escalates started five_ten 8 13 20 refl refl refl refl (omega arith) (omega arith)
      (omega arith)).0

wait_counts_as_silence_example :
    (evaluate
      (set_wait_state (set_wait_state started approval true) no_wait true)
      8
      five_ten).action
    ≡ warning
unfolding is_terminal is_paused latest_progress_at
wait_counts_as_silence_example =
    (wait_counts_as_silence five_ten started approval no_wait 8 refl refl refl refl (omega arith)).3
