-- ===== src/Watcher.antt =====
-- The watcher of one session: scripts/watcher_runtime.py, scripts/watcher_batch.py and
-- scripts/watcher_commit.py. It takes a snapshot of the runtime file, reads a batch of the rollout
-- without the file's lock, and commits both under it. What a record of the rollout says, and what
-- the engine makes of the events, are parameters.
pub mod Snapshots
pub mod Applied
pub mod Exactly
mod Tests
use codex_must_work.Prelude.{
  ℕ, ◌+◌, String, Bool, true, false, not, ◌&&◌, ◌||◌, Option, none, some, List, [], ◌∷◌, ◌++◌, ◌==◌,
  str_eq, opt_eq, is_none, any, if◌then◌else◌, Result, ok, err,
}
use codex_must_work.Manager.{RestartRequest}
use codex_must_work.Monitors.{RuntimeValues, find_monitor, all_targets}
use codex_must_work.Monitors.Views.{opt_monitor_eq, children_eq, monitor_eq, bool_eq, opt_nat_eq}
use codex_must_work.Hooks.{Hook, process_all, any_running}
use codex_must_work.Rollout.{Limits, RolloutFile, RolloutCursor, initial_cursor, read_new_records}

abbrev opt_request_eq : Option RestartRequest → Option RestartRequest → Bool
opt_request_eq none none = true
opt_request_eq none (some b) = false
opt_request_eq (some a) none = false
opt_request_eq (some a) (some b) =
    str_eq a.request_id b.request_id
    && str_eq a.turn_id b.turn_id
    && opt_eq a.target_id b.target_id
    && (a.target_generation == b.target_generation)
    && (a.progress_epoch == b.progress_epoch)
    && (a.turn_activity_epoch == b.turn_activity_epoch)

-- `values == before`
unfoldable pub values_eq : RuntimeValues → RuntimeValues → Bool
unfolding children_eq monitor_eq
values_eq v w =
    bool_eq v.enabled w.enabled
    && bool_eq v.observe_only w.observe_only
    && bool_eq v.managed_mode w.managed_mode
    && bool_eq v.manager_ready w.manager_ready
    && opt_monitor_eq v.parent w.parent
    && children_eq v.children w.children
    && opt_eq v.parent_turn_id w.parent_turn_id
    && bool_eq v.parent_complete w.parent_complete
    && opt_eq v.managed_turn_id w.managed_turn_id
    && bool_eq v.handoff_requested w.handoff_requested
    && bool_eq v.shutdown_requested w.shutdown_requested
    && bool_eq v.shutdown_interrupt w.shutdown_interrupt
    && opt_request_eq v.restart_request w.restart_request
    && bool_eq v.restart_claimed w.restart_claimed
    && opt_nat_eq v.restart_claimed_at w.restart_claimed_at
    && opt_eq v.completion_event_id w.completion_event_id
    && (v.turn_activity_epoch == w.turn_activity_epoch)
    && (v.revision == w.revision)

-- The session's files, and whether the watcher has given the session up.
pub record World : Type 0 where
  pub values : RuntimeValues
  pub rollout : RolloutFile
  pub cursor : Option RolloutCursor
  pub failed : Bool

-- What happens to the files from without: hooks write, the rollout grows.
pub record Meanwhile : Type 0 where
  pub hooks : List Hook
  pub gained : List ℕ

unfoldable pub pass : Meanwhile → World → World
unfolding process_all
pass m w = record w {
  values = process_all w.values m.hooks;
  rollout = record w.rollout { content = w.rollout.content ++ m.gained };
}

-- One round of the watcher, and what happens until the next one.
pub record Round : Type 0 where
  pub before : Meanwhile
  pub after : Meanwhile
  pub idle : Meanwhile

module _ {A E : Type 0} (decode : List ℕ → Option A) (parse : A → Option E)
    (processor : RuntimeValues → List E → Result (Bool × RuntimeValues)) where
  -- `TargetBatch`: the cursor to save, and the events up to it.
  pub record TargetBatch : Type 0 where
    pub next_cursor : RolloutCursor
    pub events : List E

  -- An event in front of the others, if the record has one.
  abbrev pub with_event : Option E → List E → List E
  with_event none events = events
  with_event (some e) events = e ∷ events

  -- The events of the records that have one.
  unfoldable pub events_of : List A → List E
  events_of [] = []
  events_of (a ∷ records) = with_event (parse a) (events_of records)

  -- The batch of the records that were read.
  abbrev pub batch_of : Result (List A × RolloutCursor) → Result TargetBatch
  batch_of (err reason) = err reason
  batch_of (ok (records, next)) = ok (record { next_cursor = next; events = events_of records })

  -- From the saved cursor on, or the end of the rollout as the first cursor.
  unfoldable pub batch_from : Option RolloutCursor → Limits → RolloutFile → Result TargetBatch
  unfolding events_of initial_cursor read_new_records
  batch_from none l f = ok (record { next_cursor = initial_cursor f; events = [] })
  batch_from (some c) l f = batch_of (read_new_records decode l f c)

  -- `read_target_batch`
  unfoldable pub read_target_batch : Limits → World → Result TargetBatch
  unfolding batch_from
  read_target_batch l w = batch_from w.cursor l w.rollout

  -- What a commit did: the events that the engine was given, if it was asked, and the files.
  abbrev pub Committed : Type 0
  Committed = Option (List E) × World

  -- The revision moves on if the engine changed a value.
  unfoldable pub revised : RuntimeValues → RuntimeValues → RuntimeValues
  unfolding values_eq
  revised before after =
      if values_eq after before then after else record after { revision = before.revision + 1 }

  -- `() if batch is None else batch.events`
  abbrev pub batch_events : Option TargetBatch → List E
  batch_events none = []
  batch_events (some b) = b.events

  -- The cursor that the commit of a batch saves.
  abbrev pub batch_cursor : Option RolloutCursor → Option TargetBatch → Option RolloutCursor
  batch_cursor saved none = saved
  batch_cursor saved (some b) = some b.next_cursor

  -- The commit of what the engine answers. An error of the engine leaves the files as they were.
  unfoldable pub after_processor :
      Option TargetBatch → World → Result (Bool × RuntimeValues) → Committed
  unfolding revised
  after_processor batch w (err reason) = (none, w)
  after_processor batch w (ok (active, after)) = (
    some (batch_events batch),
    record w { values = revised w.values after; cursor = batch_cursor w.cursor batch },
  )

  -- `commit_runtime_snapshot`, with the revision of the snapshot.
  unfoldable pub commit_runtime_snapshot : ℕ → Option TargetBatch → World → Committed
  unfolding after_processor
  commit_runtime_snapshot revision batch w =
      if not w.values.enabled || not (w.values.revision == revision)
      then (none, w)
      else after_processor batch w (processor w.values (batch_events batch))

  -- The commit of the batch that was read, for the snapshot of this revision. A rollout that cannot
  -- be read ends the session's watch, if the file is still the one of the snapshot.
  unfoldable pub commit_read : ℕ → Result TargetBatch → World → Committed
  unfolding commit_runtime_snapshot
  commit_read seen (ok batch) w = commit_runtime_snapshot seen (some batch) w
  commit_read seen (err reason) w =
      (none, record w { failed = w.values.enabled && (w.values.revision == seen) })

  -- `RuntimeFileMonitor.tick` for one runtime file: the snapshot, what happens before the rollout is
  -- read, the batch, what happens before the commit, and the commit.
  unfoldable pub tick : Limits → Meanwhile → Meanwhile → World → Committed
  unfolding read_target_batch commit_read pass any_running
  tick l before after w =
      let seen = w.values.revision in
      let read = pass before w in
      let found = pass after read in
      if not w.values.enabled || w.failed
      then (none, found)
      else if w.values.parent_complete
      then commit_runtime_snapshot seen none found
      else if not (any_running w.values)
      then (none, found)
      else commit_read seen (read_target_batch l read) found

  abbrev pub all_given : Option (List E) → List E
  all_given none = []
  all_given (some events) = events

  -- The events that the engine was given over the rounds, and the files that they leave.
  unfoldable pub rounds : Limits → List Round → World → List E × World
  unfolding tick pass
  rounds l [] w = ([], w)
  rounds l (r ∷ rs) w =
      let (given, next) = tick l r.before r.after w in
      let (later, final) = rounds l rs (pass r.idle next) in (all_given given ++ later, final)
