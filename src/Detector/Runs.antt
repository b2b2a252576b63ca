-- ===== src/Detector/Runs.antt =====
-- A detector driven by any sequence of calls, as its owner makes them.
use codex_must_work.Prelude.{
  ℕ, ◌+◌, ◌≤◌, ◌≡◌, refl, Bool, true, false, List, [], ◌∷◌, arith, count_if, if◌then◌else◌,
}
use codex_must_work.Detector.{
  ProgressKind, Action, no_action, warning, critical, Thresholds, WaitState, SilenceState,
  initial_state, latest_progress_at, record_progress, set_wait_state, evaluate,
}

pub data Input : Type 0 where
  evaluates : ℕ → Input
  progresses : ProgressKind → ℕ → Input
  waits_become : WaitState → Bool → Input

-- The state after one call, and the action that it returned.
unfoldable pub step : Thresholds → SilenceState → Input → SilenceState × Action
step t s (evaluates now) = let e = evaluate s now t in (e.state, e.action)
step t s (progresses kind at) = (record_progress s kind at, no_action)
step t s (waits_become waits resume) = (set_wait_state s waits resume, no_action)

unfoldable pub run : Thresholds → SilenceState → List Input → SilenceState
run t s [] = s
run t s (i ∷ is) = run t (step t s i).0 is

unfoldable pub actions : Thresholds → SilenceState → List Input → List Action
actions t s [] = []
actions t s (i ∷ is) = (step t s i).1 ∷ actions t (step t s i).0 is

abbrev pub is_warning : Action → Bool
is_warning warning = true
is_warning _ = false

abbrev pub is_critical : Action → Bool
is_critical critical = true
is_critical _ = false

pub record IsConsistent (s : SilenceState) : Type 0 where
  pub anchored : latest_progress_at s ≡ s.silence_started_at
  pub ordered : s.critical_emitted ≡ true → s.warning_emitted ≡ true
  pub named : s.silence_id.sequence ≡ s.silence_sequence

initial-IsConsistent : (at : ℕ) → IsConsistent (initial_state at)
unfolding initial_state latest_progress_at
initial-IsConsistent at = record { anchored = refl; ordered = λ h. cc; named = refl }

progress-IsConsistent :
    (s : SilenceState) (k : ProgressKind) (at : ℕ)
    → IsConsistent s
    → IsConsistent (record_progress s k at)
unfolding record_progress
progress-IsConsistent s ProgressKind.item at v = record {
  anchored = ground arith;
  ordered = ground arith;
  named = ground arith;
}
progress-IsConsistent s ProgressKind.delta at v = record {
  anchored = ground arith;
  ordered = ground arith;
  named = ground arith;
}
progress-IsConsistent s ProgressKind.tool_result at v = record {
  anchored = ground arith;
  ordered = ground arith;
  named = ground arith;
}

step-IsConsistent :
    (t : Thresholds) (s : SilenceState) (i : Input) → IsConsistent s → IsConsistent (step t s i).0
unfolding step
step-IsConsistent t s (evaluates now) v =
    unfold evaluate latest_progress_at in
    record { anchored = ground arith; ordered = ground arith; named = ground arith }
step-IsConsistent t s (progresses k at) v = progress-IsConsistent s k at v
step-IsConsistent t s (waits_become w r) v =
    unfold set_wait_state latest_progress_at in
    record { anchored = ground arith; ordered = ground arith; named = ground arith }

run-IsConsistent :
    (t : Thresholds) (s : SilenceState) (is : List Input)
    → IsConsistent s
    → IsConsistent (run t s is)
unfolding run
run-IsConsistent t s [] v = v
run-IsConsistent t s (i ∷ is) v = run-IsConsistent t (step t s i).0 is (step-IsConsistent t s i v)

-- From `initial_state`, whatever the calls: the latest progress is the start of the silence, a
-- critical diagnostic of the interval has had its warning, and the id names the interval.
run-initial-IsConsistent :
    (t : Thresholds) (at : ℕ) (is : List Input) → IsConsistent (run t (initial_state at) is)
run-initial-IsConsistent t at is = run-IsConsistent t _ is (initial-IsConsistent at)

abbrev one_if : Bool → ℕ
one_if b = if b then 1 else 0

-- What the flags add to the number of intervals opened before.
abbrev pub warned : SilenceState → ℕ
warned s = s.silence_sequence + one_if s.warning_emitted

abbrev pub stalled : SilenceState → ℕ
stalled s = s.silence_sequence + one_if s.critical_emitted

step-warned :
    (t : Thresholds) (s : SilenceState) (i : Input)
    → count_if is_warning ((step t s i).1 ∷ []) + warned s ≤ warned (step t s i).0
unfolding step
step-warned t s (evaluates now) = unfold evaluate in ground arith
step-warned t s (progresses ProgressKind.item at) = unfold record_progress in ground arith
step-warned t s (progresses ProgressKind.delta at) = unfold record_progress in ground arith
step-warned t s (progresses ProgressKind.tool_result at) = unfold record_progress in ground arith
step-warned t s (waits_become w r) = unfold set_wait_state in ground arith

step-stalled :
    (t : Thresholds) (s : SilenceState) (i : Input)
    → count_if is_critical ((step t s i).1 ∷ []) + stalled s ≤ stalled (step t s i).0
unfolding step
step-stalled t s (evaluates now) = unfold evaluate in ground arith
step-stalled t s (progresses ProgressKind.item at) = unfold record_progress in ground arith
step-stalled t s (progresses ProgressKind.delta at) = unfold record_progress in ground arith
step-stalled t s (progresses ProgressKind.tool_result at) = unfold record_progress in ground arith
step-stalled t s (waits_become w r) = unfold set_wait_state in ground arith

run-warned :
    (t : Thresholds) (s : SilenceState) (is : List Input)
    → count_if is_warning (actions t s is) + warned s ≤ warned (run t s is)
unfolding run actions
run-warned t s [] = omega arith
run-warned t s (i ∷ is) = ground (arith, step-warned t s i, run-warned t (step t s i).0 is)

run-stalled :
    (t : Thresholds) (s : SilenceState) (is : List Input)
    → count_if is_critical (actions t s is) + stalled s ≤ stalled (run t s is)
unfolding run actions
run-stalled t s [] = omega arith
run-stalled t s (i ∷ is) = ground (arith, step-stalled t s i, run-stalled t (step t s i).0 is)

step-balance :
    (t : Thresholds) (s : SilenceState) (i : Input)
    → IsConsistent s
    → count_if is_critical ((step t s i).1 ∷ [])
        + one_if (step t s i).0.warning_emitted
        + one_if s.critical_emitted
      ≤ count_if is_warning ((step t s i).1 ∷ [])
        + one_if s.warning_emitted
        + one_if (step t s i).0.critical_emitted
unfolding step
step-balance t s (evaluates now) v = unfold evaluate in ground arith
step-balance t s (progresses ProgressKind.item at) v = unfold record_progress in ground arith
step-balance t s (progresses ProgressKind.delta at) v = unfold record_progress in ground arith
step-balance t s (progresses ProgressKind.tool_result at) v = unfold record_progress in ground arith
step-balance t s (waits_become w r) v = unfold set_wait_state in ground arith

run-balance :
    (t : Thresholds) (s : SilenceState) (is : List Input)
    → IsConsistent s
    → count_if is_critical (actions t s is)
        + one_if (run t s is).warning_emitted
        + one_if s.critical_emitted
      ≤ count_if is_warning (actions t s is)
        + one_if s.warning_emitted
        + one_if (run t s is).critical_emitted
unfolding run actions
run-balance t s [] v = omega arith
run-balance t s (i ∷ is) v =
    ground
      (arith, step-balance t s i v, run-balance t (step t s i).0 is (step-IsConsistent t s i v))

-- From `initial_state`, whatever the calls: at most one warning and at most one critical
-- diagnostic is returned for each silence interval opened (the first one, and one for each progress
-- accepted), and there are never more critical diagnostics than warnings.
diagnostics_bounded :
    (t : Thresholds) (at : ℕ) (is : List Input)
    → let s = initial_state at in
      (count_if is_warning (actions t s is) ≤ (run t s is).silence_sequence + 1)
      × (count_if is_critical (actions t s is) ≤ (run t s is).silence_sequence + 1)
      × (count_if is_critical (actions t s is) ≤ count_if is_warning (actions t s is))
diagnostics_bounded t at is =
    let s = initial_state at in
    let v = initial-IsConsistent at in
    let final = run-IsConsistent t s is v in
    let balance = run-balance t s is v in
    unfold initial_state in
    (
      ground (arith, run-warned t s is),
      ground (arith, run-stalled t s is),
      ground (arith, balance, final.ordered),
    )
