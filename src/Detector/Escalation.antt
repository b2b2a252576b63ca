-- ===== src/Detector/Escalation.antt =====
-- When `evaluate` speaks, and that a silence always escalates.
use codex_must_work.Prelude.{
  ◌⊎◌, ltb, ◌||◌, if◌then◌else◌, ℕ, ◌+◌, ◌≤◌, ◌<◌, ◌≡◌, ◌↔◌, true, false, some, arith,
}
use codex_must_work.Detector.{
  ProgressKind, silent_warned, critical, Action, no_action, warning, stop, Thresholds, SilenceState,
  thresholds, Seconds, ticks, is_terminal, is_paused, latest_progress_at, record_progress, evaluate,
}

-- `evaluate` returns each diagnostic exactly under its conditions: stop for a terminal target; a
-- warning for a running, unpaused target that has made no progress for the warning time and has had
-- no warning; a critical stall for one that had its warning, made no progress for both times, and
-- has had no critical diagnostic.
evaluate_actions :
    (s : SilenceState) (now : ℕ) (t : Thresholds)
    → let quiet = latest_progress_at s in
      (((evaluate s now t).action ≡ stop) ↔ (is_terminal s.waits ≡ true))
      × (((evaluate s now t).action ≡ warning) ↔ (
          (is_terminal s.waits ≡ false)
          × (is_paused s.waits ≡ false)
          × (quiet + t.warning ≤ now)
          × (s.warning_emitted ≡ false)))
      × (((evaluate s now t).action ≡ Action.critical) ↔ (
          (is_terminal s.waits ≡ false)
          × (is_paused s.waits ≡ false)
          × (quiet + t.warning ≤ now)
          × (quiet + t.critical ≤ now)
          × (s.warning_emitted ≡ true)
          × (s.critical_emitted ≡ false)))
unfolding evaluate
evaluate_actions s now t = ground arith

-- Thresholds that the constructor accepts are positive and ordered; every other pair is refused.
thresholds_valid :
    (w c : Seconds) (t : Thresholds)
    → thresholds w c ≡ some t
    → (w ≡ ticks t.warning) × (c ≡ ticks t.critical) × (0 < t.warning) × (t.warning < t.critical)
unfolding thresholds
thresholds_valid (ticks w) (ticks c) t h = ground arith
thresholds_valid (ticks w) (Seconds.minus c) t h = cc
thresholds_valid (ticks w) Seconds.not_finite t h = cc
thresholds_valid (Seconds.minus w) c t h = cc
thresholds_valid Seconds.not_finite c t h = cc

-- A target that runs and is not paused, in a silence interval without diagnostics, is warned at the
-- first evaluation after the warning time, declared critically stalled at the first one after the
-- critical time, and gets no further diagnostic whenever it is evaluated after that.
pub silence_escalates :
    (s : SilenceState) (t : Thresholds) (first second third : ℕ)
    → is_terminal s.waits ≡ false
    → is_paused s.waits ≡ false
    → s.warning_emitted ≡ false
    → s.critical_emitted ≡ false
    → t.warning < t.critical
    → latest_progress_at s + t.warning ≤ first
    → latest_progress_at s + t.critical ≤ second
    → let warned = evaluate s first t in
      let stalled = evaluate warned.state second t in
      (warned.action ≡ warning)
      × (warned.state.phase ≡ silent_warned)
      × (stalled.action ≡ Action.critical)
      × (stalled.state.phase ≡ critical)
      × ((evaluate stalled.state third t).action ≡ no_action)
unfolding evaluate latest_progress_at
silence_escalates s t first second third a b c d e f g = ground arith

-- Progress at or after the latest one, on a target that has not ended, opens the next interval and
-- dates the silence from `at`: an evaluation then warns exactly when the target is not paused and the
-- warning time has passed since `at`, and says nothing otherwise.
progress_rearms :
    (s : SilenceState) (k : ProgressKind) (at now : ℕ) (t : Thresholds)
    → is_terminal s.waits ≡ false
    → latest_progress_at s ≤ at
    → let s' = record_progress s k at in
      (latest_progress_at s' ≡ at)
      × (s'.silence_sequence ≡ s.silence_sequence + 1)
      × ((evaluate s' now t).action
          ≡ (if is_paused s.waits || ltb now (at + t.warning) then no_action else warning))
unfolding record_progress evaluate
progress_rearms s ProgressKind.item at now t h le = (ground arith, ground arith, ground arith)
progress_rearms s ProgressKind.delta at now t h le = (ground arith, ground arith, ground arith)
progress_rearms s ProgressKind.tool_result at now t h le =
    (ground arith, ground arith, ground arith)

-- Progress dated before the latest one, or for a target that has ended, changes nothing.
pub stale_progress_ignored :
    (s : SilenceState) (k : ProgressKind) (at : ℕ)
    → (is_terminal s.waits ≡ true) ⊎ (at < latest_progress_at s)
    → record_progress s k at ≡ s
unfolding record_progress
stale_progress_ignored s k at h = ground arith
