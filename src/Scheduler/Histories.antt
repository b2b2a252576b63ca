-- ===== src/Scheduler/Histories.antt =====
-- Histories of the scheduler: calls of its methods and turns of its worker in any order, also while
-- a callback runs.
use codex_must_work.Prelude.{◌++◌, ℕ, ◌≡◌, refl, String, Option, none, some, List, [], ◌∷◌}
use codex_must_work.Scheduler.{
  Entry, DeadlineScheduler, Result, ok, err, init, schedule, cancel, close, Next, runs, next_entry,
  Outcome, finish_callback,
}
use codex_must_work.Scheduler.Invariant.{
  IsSound, init-IsSound, schedule-IsSound, cancel-IsSound, close-IsSound, finish_callback-IsSound,
  turn-IsSound, next_entry-turn,
}

-- `takes` is the worker's turn under the lock, `finishes` the end of the callback that it runs.
pub data Op : Type 0 where
  schedules : String → ℕ → ℕ → Op
  cancels : String → Op
  closes : Op
  takes : ℕ → Op
  finishes : Outcome → Op

-- A call that raises leaves the scheduler as it was.
abbrev pub after : DeadlineScheduler → Result DeadlineScheduler → DeadlineScheduler
after s (ok s') = s'
after s (err e) = s

-- One round is enough for the worker's turn.
abbrev pub taken : DeadlineScheduler → Option (Next × DeadlineScheduler) → DeadlineScheduler
taken s none = s
taken s (some (n, s')) = s'

abbrev pub fired_by : Option (Next × DeadlineScheduler) → List Entry
fired_by (some (runs e, s')) = e ∷ []
fired_by _ = []

unfoldable pub perform : DeadlineScheduler → Op → DeadlineScheduler
perform s (schedules key deadline callback) = after s (schedule s key deadline callback)
perform s (cancels key) = cancel s key
perform s closes = close s
perform s (takes now) = taken s (next_entry 1 now s)
perform s (finishes o) = finish_callback s o

unfoldable pub fires : DeadlineScheduler → Op → List Entry
fires s (takes now) = fired_by (next_entry 1 now s)
fires s _ = []

unfoldable pub history : DeadlineScheduler → List Op → DeadlineScheduler
history s [] = s
history s (o ∷ os) = history (perform s o) os

unfoldable pub fired : DeadlineScheduler → List Op → List Entry
fired s [] = []
fired s (o ∷ os) = fires s o ++ fired (perform s o) os

pub perform-IsSound : (s : DeadlineScheduler) (o : Op) → IsSound s → IsSound (perform s o)
unfolding perform
perform-IsSound s (schedules key d c) v = by_result (schedule s key d c) refl
  where
    by_result : (r : Result DeadlineScheduler) → schedule s key d c ≡ r → IsSound (after s r)
    by_result (ok s') h = schedule-IsSound s s' key d c v h
    by_result (err e) h = v
perform-IsSound s (cancels key) v = cancel-IsSound s v key
perform-IsSound s closes v = close-IsSound s v
perform-IsSound s (takes now) v = rw (next_entry-turn 0 now s) (turn-IsSound now s v)
perform-IsSound s (finishes o) v = finish_callback-IsSound s o v

pub history-IsSound : (s : DeadlineScheduler) (os : List Op) → IsSound s → IsSound (history s os)
unfolding history
history-IsSound s [] v = v
history-IsSound s (o ∷ os) v = history-IsSound (perform s o) os (perform-IsSound s o v)

-- Every history from a new scheduler keeps the heap in order and numbered, every registered key has
-- its entry in the heap, and no two keys share a generation.
pub history-init-IsSound : (os : List Op) → IsSound (history init os)
history-init-IsSound os = history-IsSound init os init-IsSound
