-- ===== src/Detector/Waits.antt =====
-- What a confirmed wait does to the silence clock.
use mathlib.Core.Path.{subst}
use codex_must_work.Prelude.{
  sym, map, All, ℕ, ◌+◌, ◌≤◌, ◌≡◌, refl, true, false, List, [], ◌∷◌, arith,
}
use codex_must_work.Detector.{
  Evaluation, healthy, paused, no_action, warning, Thresholds, WaitState, SilenceState, is_terminal,
  is_paused, latest_progress_at, set_wait_state, evaluate,
}
use codex_must_work.Detector.Runs.{evaluates, run, actions, step}

evaluate-paused :
    (s : SilenceState) (now : ℕ) (t : Thresholds)
    → is_paused s.waits ≡ true
    → evaluate s now t ≡ record { state = record s { phase = paused }; action = no_action }
unfolding evaluate
evaluate-paused s now t h = ground arith

-- While the target is paused, any number of evaluations returns no diagnostic, and leaves the waits,
-- the clock and the flags alone.
paused_is_silent :
    (t : Thresholds) (s : SilenceState) (times : List ℕ)
    → is_paused s.waits ≡ true
    → All (λ a. a ≡ no_action) (actions t s (map evaluates times))
      × ((run t s (map evaluates times)).waits ≡ s.waits)
      × (latest_progress_at (run t s (map evaluates times)) ≡ latest_progress_at s)
      × ((run t s (map evaluates times)).warning_emitted ≡ s.warning_emitted)
unfolding run actions step latest_progress_at
paused_is_silent t s [] h = (tt, refl, refl, refl)
paused_is_silent t s (now ∷ times) h =
    let rest = paused_is_silent t (record s { phase = paused }) times h in
    subst
      (λ (e : Evaluation).
        let is = map evaluates times in
        All (λ a. a ≡ no_action) (e.action ∷ actions t e.state is)
        × ((run t e.state is).waits ≡ s.waits)
        × (latest_progress_at (run t e.state is) ≡ latest_progress_at s)
        × ((run t e.state is).warning_emitted ≡ s.warning_emitted))
      (sym (evaluate-paused s now t h)) ((refl, rest.0), rest.1, rest.2, rest.3)

-- A pause is part of the silence: when it ends with a confirmed resume, the silence still dates from
-- the latest progress, and a target that had no warning is warned at once if the warning time has
-- passed since then, however long it was paused.
pub wait_counts_as_silence :
    (t : Thresholds) (s : SilenceState) (pause resumed : WaitState) (now : ℕ)
    → is_paused pause ≡ true
    → is_terminal resumed ≡ false
    → is_paused resumed ≡ false
    → s.warning_emitted ≡ false
    → latest_progress_at s + t.warning ≤ now
    → let s' = set_wait_state (set_wait_state s pause true) resumed true in
      (s'.phase ≡ healthy)
      × (latest_progress_at s' ≡ latest_progress_at s)
      × (s'.silence_sequence ≡ s.silence_sequence)
      × ((evaluate s' now t).action ≡ warning)
unfolding set_wait_state evaluate
wait_counts_as_silence t s pause resumed now a b c d e = ground arith
