-- ===== src/Scheduler.antt =====
-- scripts/daemon_scheduler.py: keyed callbacks that run when signalled or when their deadline comes.
-- `heapq` keeps the least entry in front: the heap is the list of its entries in their order, which
-- compares the deadline, then the sequence number. A time is a number of clock ticks, a callback the
-- number of a callable. Each method body runs under the condition's lock, so it is one step; a wait
-- of the worker ends its step, and the next one starts at the head of the loop again.
pub mod Order
pub mod Invariant
pub mod Due
pub mod Histories
pub mod Once
pub mod Health
mod Tests
use codex_must_work.Prelude.{
  ℕ, zero, suc, ◌+◌, String, Bool, true, false, not, ◌&&◌, ◌||◌, Option, none, some, List, [], ◌∷◌,
  ltb, ◌==◌, str_eq, if◌then◌else◌, Dict, get, put, remove,
}

pub data SchedulerHealth : Type 0 where
  healthy degraded fatal : SchedulerHealth

-- `SchedulerError` with its reason code, or the value.
pub data Result (A : Type 0) : Type 0 where
  ok : A → Result A
  err : String → Result A

pub record Entry : Type 0 where
  pub deadline : ℕ
  pub sequence : ℕ
  pub key : String
  pub generation : ℕ
  pub callback : ℕ

pub record SchedulerStatus : Type 0 where
  pub health : SchedulerHealth
  pub callback_failure_count : ℕ
  pub last_callback_error : Option String

pub record DeadlineScheduler : Type 0 where
  pub entries : List Entry
  pub generations : Dict ℕ
  pub sequence : ℕ
  pub closed : Bool
  pub health : SchedulerHealth
  pub callback_failure_count : ℕ
  pub last_callback_error : Option String

unfoldable pub init : DeadlineScheduler
init = record {
  entries = [];
  generations = [];
  sequence = 0;
  closed = false;
  health = healthy;
  callback_failure_count = 0;
  last_callback_error = none;
}

-- The order of `_Entry`: its fields that compare are the deadline and the sequence.
abbrev pub before : Entry → Entry → Bool
before a b = ltb a.deadline b.deadline || (a.deadline == b.deadline && ltb a.sequence b.sequence)

-- `heapq.heappush`
unfoldable pub heappush : Entry → List Entry → List Entry
heappush e [] = e ∷ []
heappush e (f ∷ es) = if before e f then e ∷ f ∷ es else f ∷ heappush e es

abbrev pub is_fatal : SchedulerHealth → Bool
is_fatal fatal = true
is_fatal _ = false

unfoldable pub schedule : DeadlineScheduler → String → ℕ → ℕ → Result DeadlineScheduler
unfolding heappush
schedule s key deadline callback =
    if str_eq key ""
    then err "scheduler_key_missing"
    else if is_fatal s.health
    then err "scheduler_unavailable"
    else if s.closed
    then err "scheduler_closed"
    else (let generation = s.sequence + 1 in
        ok (record s {
          sequence = generation;
          generations = put key generation s.generations;
          entries =
              heappush
                (record {
                  deadline = deadline;
                  sequence = generation;
                  key = key;
                  generation = generation;
                  callback = callback;
                })
                s.entries;
        }))

unfoldable pub wake : DeadlineScheduler → String → ℕ → ℕ → Result DeadlineScheduler
unfolding schedule
wake s key now callback = schedule s key now callback

unfoldable pub cancel : DeadlineScheduler → String → DeadlineScheduler
cancel s key = record s { generations = remove key s.generations }

-- `close`, up to the wait for the worker's exit.
unfoldable pub close : DeadlineScheduler → DeadlineScheduler
close s = if s.closed then s else record s { closed = true; generations = []; entries = [] }

unfoldable pub status : DeadlineScheduler → SchedulerStatus
status s = record {
  health = s.health;
  callback_failure_count = s.callback_failure_count;
  last_callback_error = s.last_callback_error;
}

-- `_record_callback_failure`, `_record_callback_success`, `_mark_fatal`
unfoldable pub record_callback_failure : DeadlineScheduler → DeadlineScheduler
record_callback_failure s = record s {
  callback_failure_count = s.callback_failure_count + 1;
  last_callback_error = some "callback_failed";
  health = elim s.health [ healthy ↦ degraded | degraded ↦ degraded | fatal ↦ fatal ];
}

unfoldable pub record_callback_success : DeadlineScheduler → DeadlineScheduler
record_callback_success s = record s {
  health = elim s.health [ healthy ↦ healthy | degraded ↦ healthy | fatal ↦ fatal ];
}

unfoldable pub mark_fatal : DeadlineScheduler → DeadlineScheduler
mark_fatal s = record s {
  health = fatal;
  entries = [];
  generations = [];
  last_callback_error = some "scheduler_fatal";
}

-- `self._generations.get(entry.key) == entry.generation`
abbrev pub is_current : Dict ℕ → Entry → Bool
is_current generations e = elim (get generations e.key) [
  | none ↦ false
  | some g ↦ g == e.generation
]

-- `_discard_stale`
unfoldable pub discard_stale : Dict ℕ → List Entry → List Entry
discard_stale generations [] = []
discard_stale generations (e ∷ es) =
    let rest = discard_stale generations es in if is_current generations e then e ∷ es else rest

-- What the worker's turn under the lock ends with.
pub data Next : Type 0 where
  exits waits : Next
  sleeps_until : ℕ → Next
  runs : Entry → Next

-- `_next_entry` at the clock value `now`; `none` if the rounds given do not suffice.
unfoldable pub next_entry : ℕ → ℕ → DeadlineScheduler → Option (Next × DeadlineScheduler)
unfolding discard_stale
next_entry zero now s = none
next_entry (suc rounds) now s =
    if s.closed then some (exits, s) else elim (discard_stale s.generations s.entries) [
      | [] ↦ some (waits, record s { entries = [] })
      | e ∷ es ↦
          let again = next_entry rounds now (record s { entries = es }) in
          if ltb now e.deadline
          then some (sleeps_until e.deadline, record s { entries = e ∷ es })
          else if not (is_current s.generations e)
          then again
          else some (runs e, record s { entries = es; generations = remove e.key s.generations })
    ]

-- How a callback ends: by returning, by an `Exception`, or by another `BaseException`.
pub data Outcome : Type 0 where
  returned raised escaped : Outcome

-- The rest of one round of `_run`, after the callback.
unfoldable pub finish_callback : DeadlineScheduler → Outcome → DeadlineScheduler
unfolding record_callback_failure record_callback_success mark_fatal
finish_callback s returned = record_callback_success s
finish_callback s raised = record_callback_failure s
finish_callback s escaped = mark_fatal s
