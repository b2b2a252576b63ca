-- ===== src/Task/Deadlines.antt =====
-- The deadlines of a task of scripts/daemon_task.py.
use codex_must_work.Prelude.{ℕ, ◌+◌, ◌≤◌, ◌<◌, ◌≡◌, true, false, refl, arith, ==_refl}
use codex_must_work.Task.{
  DaemonTask, DeadlineKind, warning, restart, heartbeat, record_activity, next_deadline,
  advance_deadline, is_next, same_kind, offset, advanced,
}

same_kind_refl : (k : DeadlineKind) → same_kind k k ≡ true
same_kind_refl warning = refl
same_kind_refl restart = refl
same_kind_refl heartbeat = refl

own-is_next : (t : DaemonTask) → is_next (next_deadline t) t ≡ true
unfolding is_next
own-is_next t = ground (arith, ==_refl (next_deadline t).at, same_kind_refl t.deadline_kind)

advanced_later :
    (k : DeadlineKind) (now : ℕ) (t : DaemonTask)
    → t.deadline_kind ≡ k
    → 1 ≤ t.warning_seconds
    → t.warning_seconds < t.restart_seconds
    → t.silence_started + offset k t ≤ now
    → t.silence_started + offset k t < (next_deadline (advanced k now t)).at
unfolding next_deadline
advanced_later warning now t e w r d = omega arith
advanced_later restart now t e w r d = omega arith
advanced_later heartbeat now t e w r d = omega arith

-- A deadline that is still the next one and is due is taken, and the next deadline lies strictly after
-- it, where the warning threshold is positive and the restart threshold exceeds it: a task is never left
-- without a later deadline.
deadlines_go_on :
    (now : ℕ) (t : DaemonTask)
    → 1 ≤ t.warning_seconds
    → t.warning_seconds < t.restart_seconds
    → (next_deadline t).at ≤ now
    → ((advance_deadline (next_deadline t) now t).0 ≡ true)
      × ((next_deadline t).at < (next_deadline (advance_deadline (next_deadline t) now t).1).at)
unfolding advance_deadline
deadlines_go_on now t w r d =
    simp (own-is_next t)
      (refl, unfold next_deadline in advanced_later t.deadline_kind now t refl w r d)

stale :
    (k : DeadlineKind) (now : ℕ) (t : DaemonTask)
    → t.deadline_kind ≡ k
    → t.silence_started < now
    → is_next (record { at = t.silence_started + offset k t; kind = k }) (record_activity now t)
      ≡ false
unfolding is_next record_activity next_deadline
stale warning now t e l = ground arith
stale restart now t e l = ground arith
stale heartbeat now t e l = ground arith

-- Progress makes the deadlines before it stale: once activity is recorded after the start of the
-- silence, a callback for the deadline before it changes nothing, and the next deadline is the warning
-- one threshold after the activity.
activity_restarts_deadlines :
    (now later : ℕ) (t : DaemonTask)
    → t.silence_started < now
    → (advance_deadline (next_deadline t) later (record_activity now t)
        ≡ (false, record_activity now t))
      × (next_deadline (record_activity now t)
          ≡ record { at = now + t.warning_seconds; kind = warning })
unfolding advance_deadline
activity_restarts_deadlines now later t l = (
  simp (stale t.deadline_kind now t refl l) refl,
  unfold next_deadline record_activity in ground arith,
)
