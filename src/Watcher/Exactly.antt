-- ===== src/Watcher/Exactly.antt =====
-- That the engine is given each event of the rollout once.
use codex_must_work.Prelude.{
  ℕ, ◌≤◌, ◌≡◌, refl, sym, subst, Bool, not, ◌&&◌, ◌||◌, Option, none, some, List, [], ◌∷◌, ◌++◌,
  ◌==◌, length, if_cases, Result, ok, err,
}
use mathlib.Core.List.{append_assoc, append-nil}
use codex_must_work.Monitors.{RuntimeValues}
use codex_must_work.Hooks.{any_running}
use codex_must_work.Rollout.{Limits, RolloutCursor, seek, read_new_records}
use codex_must_work.Rollout.Lines.{seek-grown}
use codex_must_work.Rollout.Reading.{IsRead, nothing-IsRead}
use codex_must_work.Rollout.Growth.{left_over, extended, ReadsTo, read_new_records-ReadsTo}
use codex_must_work.Watcher.{
  World, Meanwhile, pass, all_given, after_processor, batch_events, TargetBatch, events_of,
  read_target_batch, Committed, revised, commit_runtime_snapshot, batch_of, batch_from, commit_read,
  tick, Round, rounds,
}
use codex_must_work.Watcher.Applied.{
  IsApplied, events_of-nil, grown-IsApplied, pass-IsApplied, batch-IsApplied,
}

module _ {A E : Type 0} (decode : List ℕ → Option A) (parse : A → Option E)
    (processor : RuntimeValues → List E → Result (Bool × RuntimeValues)) where
  -- No batch, or the one from the saved cursor on.
  abbrev Fits :
      (from : RolloutCursor) (events : List E) (w : World)
      → IsApplied decode parse processor from events w
      → Option (TargetBatch decode parse processor)
      → Type 0
  Fits from events w a none = Unit
  Fits from events w a (some b) =
      (records : List A) × IsRead decode (seek a.cursor.offset w.rollout.content) a.cursor.offset
        records b.next_cursor.offset
      × (b.events ≡ events_of decode parse processor records)

  abbrev IsNext : RolloutCursor → List E → Committed decode parse processor → Type 0
  IsNext from events r =
      IsApplied decode parse processor from (events ++ all_given decode parse processor r.0) r.1

  nothing-IsNext :
      (from : RolloutCursor) (events : List E) (w : World)
      → IsApplied decode parse processor from events w
      → IsNext from events (none, w)
  nothing-IsNext from events w a =
      subst (λ es. IsApplied decode parse processor from es w) (sym (append-nil events)) a

  -- What the engine answers, on a commit of the batch.
  answered-IsNext :
      (from : RolloutCursor) (events : List E) (w : World)
      (a : IsApplied decode parse processor from events w)
      (batch : Option (TargetBatch decode parse processor))
      → Fits from events w a batch
      → (r : Result (Bool × RuntimeValues))
      → IsNext from events (after_processor decode parse processor batch w r)
  unfolding after_processor
  answered-IsNext from events w a batch f (err reason) = nothing-IsNext from events w a
  answered-IsNext from events w a none f (ok (active, after)) =
      nothing-IsNext from events
        (record w { values = revised decode parse processor w.values after })
        (grown-IsApplied decode parse processor from events w
          (record w { values = revised decode parse processor w.values after }) [] a refl
          (sym (append-nil w.rollout.content)))
  answered-IsNext from events w a (some b) f (ok (active, after)) =
      subst
        (λ es. IsApplied decode parse processor from (events ++ es) (record w {
          values = revised decode parse processor w.values after;
          cursor = some b.next_cursor;
        }))
        (sym f.2)
        (batch-IsApplied decode parse processor from events w
          (record w {
            values = revised decode parse processor w.values after;
            cursor = some b.next_cursor;
          })
          a b.next_cursor f.0 f.1 refl refl)

  commit-IsNext :
      (from : RolloutCursor) (events : List E) (w : World)
      (a : IsApplied decode parse processor from events w) (revision : ℕ)
      (batch : Option (TargetBatch decode parse processor))
      → Fits from events w a batch
      → IsNext from events (commit_runtime_snapshot decode parse processor revision batch w)
  unfolding commit_runtime_snapshot
  commit-IsNext from events w a revision batch f =
      if_cases (IsNext from events) (not w.values.enabled || not (w.values.revision == revision))
        (none, w) _ (λ _. nothing-IsNext from events w a)
        (λ _.
          answered-IsNext from events w a batch f
            (processor w.values (batch_events decode parse processor batch)))

  abbrev ResultFits :
      (from : RolloutCursor) (events : List E) (w : World)
      → IsApplied decode parse processor from events w
      → Result (TargetBatch decode parse processor)
      → Type 0
  ResultFits from events w a (err reason) = Unit
  ResultFits from events w a (ok b) = Fits from events w a (some b)

  batch_of-ResultFits :
      (from : RolloutCursor) (events : List E) (m : Meanwhile) (w : World)
      (a : IsApplied decode parse processor from events w) (r : Result (List A × RolloutCursor))
      → ReadsTo decode (seek a.cursor.offset w.rollout.content) a.cursor.offset r
      → ResultFits from events
          (pass m w)
          (pass-IsApplied decode parse processor from events m w a)
          (batch_of decode parse processor r)
  unfolding pass pass-IsApplied grown-IsApplied
  batch_of-ResultFits from events m w a (err reason) r = tt
  batch_of-ResultFits from events m w a (ok (records, next)) r = (records, more, refl)
    where
      inside : a.cursor.offset ≤ length w.rollout.content
      inside =
          (left_over decode w.rollout.content [] from.offset a.cursor.offset a.records a.read
            a.within).0

      more :
          IsRead decode
            (seek a.cursor.offset (w.rollout.content ++ m.gained))
            a.cursor.offset
            records
            next.offset
      more =
          subst (λ u. IsRead decode u a.cursor.offset records next.offset)
            (sym (seek-grown a.cursor.offset w.rollout.content m.gained inside))
            (extended decode (seek a.cursor.offset w.rollout.content) m.gained a.cursor.offset
              next.offset records r)

  -- What a batch that was read holds: the lines from the saved cursor on, also when the rollout has
  -- grown since.
  read-ResultFits :
      (from : RolloutCursor) (events : List E) (l : Limits) (m : Meanwhile) (w : World)
      (a : IsApplied decode parse processor from events w)
      → ResultFits from events
          (pass m w)
          (pass-IsApplied decode parse processor from events m w a)
          (read_target_batch decode parse processor l w)
  unfolding read_target_batch batch_from
  read-ResultFits from events l m w a =
      subst
        (λ c.
          ResultFits from events (pass m w)
            (pass-IsApplied decode parse processor from events m w a)
            (batch_from decode parse processor c l w.rollout))
        (sym a.saved)
        (batch_of-ResultFits from events m w a (read_new_records decode l w.rollout a.cursor)
          (read_new_records-ReadsTo decode l w.rollout a.cursor))

  commit_read-IsNext :
      (from : RolloutCursor) (events : List E) (w : World)
      (a : IsApplied decode parse processor from events w) (seen : ℕ)
      (r : Result (TargetBatch decode parse processor))
      → ResultFits from events w a r
      → IsNext from events (commit_read decode parse processor seen r w)
  unfolding commit_read
  commit_read-IsNext from events w a seen (ok batch) f =
      commit-IsNext from events w a seen (some batch) f
  commit_read-IsNext from events w a seen (err reason) f =
      nothing-IsNext from events
        (record w { failed = w.values.enabled && (w.values.revision == seen) })
        (grown-IsApplied decode parse processor from events w
          (record w { failed = w.values.enabled && (w.values.revision == seen) }) [] a refl
          (sym (append-nil w.rollout.content)))

  tick-IsNext :
      (from : RolloutCursor) (events : List E) (l : Limits) (before after : Meanwhile) (w : World)
      → IsApplied decode parse processor from events w
      → IsNext from events (tick decode parse processor l before after w)
  unfolding tick
  tick-IsNext from events l before after w a =
      if_cases (IsNext from events) (not w.values.enabled || w.failed) (none, found) _
        (λ _. nothing-IsNext from events found there)
        (λ _.
          if_cases (IsNext from events) w.values.parent_complete
            (commit_runtime_snapshot decode parse processor w.values.revision none found) _
            (λ _. commit-IsNext from events found there w.values.revision none tt)
            (λ _.
              if_cases (IsNext from events) (not (any_running w.values)) (none, found) _
                (λ _. nothing-IsNext from events found there)
                (λ _.
                  commit_read-IsNext from events found there w.values.revision
                    (read_target_batch decode parse processor l read)
                    (read-ResultFits from events l after read here))))
    where
      read : World
      read = pass before w

      found : World
      found = pass after read

      here : IsApplied decode parse processor from events read
      here = pass-IsApplied decode parse processor from events before w a

      there : IsApplied decode parse processor from events found
      there = pass-IsApplied decode parse processor from events after read here

  more_rounds-IsApplied :
      (from : RolloutCursor) (events : List E) (l : Limits) (rs : List Round) (w : World)
      → IsApplied decode parse processor from events w
      → IsApplied decode parse processor from
          (events ++ (rounds decode parse processor l rs w).0)
          (rounds decode parse processor l rs w).1
  unfolding rounds
  more_rounds-IsApplied from events l [] w a =
      subst (λ es. IsApplied decode parse processor from es w) (sym (append-nil events)) a
  more_rounds-IsApplied from events l (r ∷ rs) w a =
      subst
        (λ es. IsApplied decode parse processor from es (rounds decode parse processor l rs next).1)
        (append_assoc events given (rounds decode parse processor l rs next).0)
        (more_rounds-IsApplied from (events ++ given) l rs next (
          pass-IsApplied decode parse processor from (events ++ given) r.idle
            (tick decode parse processor l r.before r.after w).1
            (tick-IsNext from events l r.before r.after w a)))
    where
      given : List E
      given = all_given decode parse processor (tick decode parse processor l r.before r.after w).0

      next : World
      next = pass r.idle (tick decode parse processor l r.before r.after w).1

  -- Over any rounds of the watcher, with any hooks and any growth of the rollout between and within
  -- them, the engine is given exactly the events of the complete lines from the first cursor to the
  -- one that is saved in the end, each once and in order: a batch that was overtaken by a hook, or
  -- that the engine refused, is read again, and no other is.
  pub rounds-IsApplied :
      (l : Limits) (rs : List Round) (w : World) (from : RolloutCursor)
      → w.cursor ≡ some from
      → from.offset ≤ length w.rollout.content
      → IsApplied decode parse processor from
          (rounds decode parse processor l rs w).0
          (rounds decode parse processor l rs w).1
  rounds-IsApplied l rs w from saved within = more_rounds-IsApplied from [] l rs w (record {
    cursor = from;
    records = [];
    saved = saved;
    read = nothing-IsRead decode (seek from.offset w.rollout.content) from.offset;
    within = within;
    given = events_of-nil decode parse processor;
  })
