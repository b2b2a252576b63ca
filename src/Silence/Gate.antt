-- ===== src/Silence/Gate.antt =====
-- When scripts/silence.py restarts a turn by itself.
use codex_must_work.Prelude.{
  leb, ℕ, ◌+◌, ◌≤◌, ◌≡◌, ◌↔◌, ◌&&◌, leb, inl, inr, Bool-cases, Bool, true, false, List, [], ◌∷◌,
  arith, refl, count_if,
}
use codex_must_work.Detector.{is_terminal, is_paused}
use codex_must_work.Silence.{
  no_action, SilenceState, Thresholds, RestartGate, Action, evaluate, is_effective, is_restarted,
  latest_progress_at, auto_restart, restarted,
}

-- An evaluation restarts the turn exactly when the gate is effective, the target is neither terminal nor
-- waiting, its last progress is at least both thresholds old, the warning of this silence was given
-- before, and the turn is not already restarted.
auto_restart_exactly :
    (s : SilenceState) (now : ℕ) (t : Thresholds) (gate : RestartGate)
    → ((evaluate s now t gate).action ≡ auto_restart) ↔ (
        (is_effective gate ≡ true)
        × (is_terminal s.waits ≡ false)
        × (is_paused s.waits ≡ false)
        × (latest_progress_at s + t.warning ≤ now)
        × (latest_progress_at s + t.restart ≤ now)
        × (s.warning_emitted ≡ true)
        × (is_restarted s.phase ≡ false))
unfolding evaluate
auto_restart_exactly s now t gate = ground arith

-- A sequence of evaluations, each with its time and its gate.
unfoldable pub evaluations : Thresholds → SilenceState → List (ℕ × RestartGate) → List Action
evaluations t s [] = []
evaluations t s ((now, gate) ∷ ticks) =
    let e = evaluate s now t gate in e.action ∷ evaluations t e.state ticks

-- The clock does not go back.
abbrev pub is_ordered : ℕ → List (ℕ × RestartGate) → Bool
is_ordered since [] = true
is_ordered since ((now, gate) ∷ ticks) = leb since now && is_ordered now ticks

abbrev pub is_auto_restart : Action → Bool
is_auto_restart auto_restart = true
is_auto_restart _ = false

abbrev pub restarts : List Action → ℕ
restarts actions = count_if is_auto_restart actions

-- The turn was restarted in this silence, and the thresholds are over.
pub record IsRestarted (t : Thresholds) (since : ℕ) (s : SilenceState) : Type 0 where
  pub phase : s.phase ≡ restarted
  pub warned : s.warning_emitted ≡ true
  pub emitted : s.restart_eligibility_emitted ≡ true
  pub running : is_terminal s.waits ≡ false
  pub unpaused : is_paused s.waits ≡ false
  pub warning_over : latest_progress_at s + t.warning ≤ since
  pub restart_over : latest_progress_at s + t.restart ≤ since

quiet_evaluation :
    (t : Thresholds) (since now : ℕ) (gate : RestartGate) (s : SilenceState)
    → IsRestarted t since s
    → since ≤ now
    → evaluate s now t gate ≡ record { state = s; action = no_action }
unfolding evaluate
quiet_evaluation t since now gate s r o =
    simp r.running (ground (arith, r.phase, r.warned, r.emitted, r.warning_over, r.restart_over))

restarting-IsRestarted :
    (t : Thresholds) (now : ℕ) (gate : RestartGate) (s : SilenceState)
    → (evaluate s now t gate).action ≡ auto_restart
    → IsRestarted t now (evaluate s now t gate).state
unfolding evaluate
restarting-IsRestarted t now gate s h =
    let (g, running, unpaused, warning_over, restart_over, warned, fresh) =
      (auto_restart_exactly s now t gate).0 h in
    record {
      phase = ground arith;
      warned = ground arith;
      emitted = ground arith;
      running = running;
      unpaused = unpaused;
      warning_over = unfold latest_progress_at in warning_over;
      restart_over = unfold latest_progress_at in restart_over;
    }

IsRestarted-later :
    (t : Thresholds) (since now : ℕ) (s : SilenceState)
    → IsRestarted t since s
    → since ≤ now
    → IsRestarted t now s
IsRestarted-later t since now s r o = record {
  phase = r.phase;
  warned = r.warned;
  emitted = r.emitted;
  running = r.running;
  unpaused = r.unpaused;
  warning_over = omega (arith, r.warning_over);
  restart_over = omega (arith, r.restart_over);
}

restarted_is_quiet :
    (t : Thresholds) (since : ℕ) (s : SilenceState) (ticks : List (ℕ × RestartGate))
    → IsRestarted t since s
    → is_ordered since ticks ≡ true
    → restarts (evaluations t s ticks) ≡ 0
unfolding evaluations
restarted_is_quiet t since s [] r o = refl
restarted_is_quiet t since s ((now, gate) ∷ ticks) r o =
    let soon : since ≤ now = ground arith in
    simp (quiet_evaluation t since now gate s r soon)
      (restarted_is_quiet t now s ticks (IsRestarted-later t since now s r soon) (ground arith))

-- However often a silence is evaluated, at times that do not go back and whatever the gates say, it
-- restarts the turn at most once.
restarted_at_most_once :
    (t : Thresholds) (s : SilenceState) (since : ℕ) (ticks : List (ℕ × RestartGate))
    → is_ordered since ticks ≡ true
    → restarts (evaluations t s ticks) ≤ 1
unfolding evaluations
restarted_at_most_once t s since [] o = omega arith
restarted_at_most_once t s since ((now, gate) ∷ ticks) o =
    let e = evaluate s now t gate in
    elim (Bool-cases (is_auto_restart e.action)) [
      | inl restarting ↦
          let rest =
            restarted_is_quiet t now e.state ticks
              (restarting-IsRestarted t now gate s (ground arith)) (ground arith) in
          simp restarting (omega (arith, rest))
      | inr other ↦ simp other (restarted_at_most_once t e.state now ticks (ground arith))
    ]
