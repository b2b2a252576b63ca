-- ===== src/Watcher/Snapshots.antt =====
-- That a commit is one of the snapshot: no write of a hook is lost.
use codex_must_work.Prelude.{
  ℕ, ◌<◌, ◌≡◌, refl, ◌∙◌, sym, subst, Bool, not, ◌||◌, Option, none, some, List, [], ◌∷◌, ◌==◌, ◌⊎◌,
  inl, inr, if_cases, arith, Result, ok, err,
}
use codex_must_work.Monitors.{RuntimeValues}
use codex_must_work.Hooks.{
  Hook, HookResult, process, process_all, process_hook, is_session_start, any_running,
}
use codex_must_work.Rollout.{Limits}
use codex_must_work.Watcher.{
  World, Meanwhile, pass, TargetBatch, read_target_batch, Committed, revised, batch_events,
  after_processor, commit_runtime_snapshot, commit_read, tick,
}

-- The values are the same, or of a later revision.
abbrev pub IsMoved : RuntimeValues → RuntimeValues → Type 0
IsMoved v w = (w ≡ v) ⊎ (v.revision < w.revision)

IsMoved-trans : (u v w : RuntimeValues) → IsMoved u v → IsMoved v w → IsMoved u w
IsMoved-trans u v w (inl e) (inl f) = inl (f ∙ e)
IsMoved-trans u v w (inl e) (inr g) =
    inr (subst (λ (x : RuntimeValues). x.revision < w.revision) e g)
IsMoved-trans u v w (inr g) (inl f) =
    inr (subst (λ (x : RuntimeValues). u.revision < x.revision) (sym f) g)
IsMoved-trans u v w (inr g) (inr h) = inr (omega arith)

process-IsMoved : (v : RuntimeValues) (h : Hook) → IsMoved v (process v h)
unfolding process process_hook
process-IsMoved v h =
    if_cases (λ (r : Option HookResult × RuntimeValues). IsMoved v r.1)
      (is_session_start h.payload.event || not v.enabled || not h.same_transcript) (none, v) _
      (λ _. inl refl) (λ _. inr (omega arith))

process_all-IsMoved : (v : RuntimeValues) (hooks : List Hook) → IsMoved v (process_all v hooks)
unfolding process_all
process_all-IsMoved v [] = inl refl
process_all-IsMoved v (h ∷ hooks) =
    IsMoved-trans v (process v h) (process_all (process v h) hooks) (process-IsMoved v h)
      (process_all-IsMoved (process v h) hooks)

pass-IsMoved : (m : Meanwhile) (w : World) → IsMoved w.values (pass m w).values
unfolding pass
pass-IsMoved m w = process_all-IsMoved w.values m.hooks

unmoved : (v w : RuntimeValues) → IsMoved v w → w.revision ≡ v.revision → w ≡ v
unmoved v w (inl e) same = e
unmoved v w (inr g) same = absurd (omega arith)

module _ {A E : Type 0} (decode : List ℕ → Option A) (parse : A → Option E)
    (processor : RuntimeValues → List E → Result (Bool × RuntimeValues)) where
  -- The engine was given these events with values of this revision, and its answer was written.
  abbrev IsWritten : ℕ → List E → World → World → Type 0
  IsWritten seen events w q =
      (w.values.revision ≡ seen)
      × (active : Bool) × (answer : RuntimeValues) × (processor w.values events
          ≡ ok (active, answer))
      × (q.values ≡ revised decode parse processor w.values answer)

  -- If the engine was asked at all.
  abbrev Writes : ℕ → World → Committed decode parse processor → Type 0
  Writes seen w r = (events : List E) → r.0 ≡ some events → IsWritten seen events w r.1

  after_processor-Writes :
      (seen : ℕ) (batch : Option (TargetBatch decode parse processor)) (w : World)
      (r : Result (Bool × RuntimeValues))
      → w.values.revision ≡ seen
      → processor w.values (batch_events decode parse processor batch) ≡ r
      → Writes seen w (after_processor decode parse processor batch w r)
  unfolding after_processor
  after_processor-Writes seen batch w (err reason) e p events g = cc
  after_processor-Writes seen batch w (ok (active, answer)) e p events g =
      (e, active, answer, subst (λ es. processor w.values es ≡ ok (active, answer)) (cc g) p, refl)

  commit-Writes :
      (seen : ℕ) (batch : Option (TargetBatch decode parse processor)) (w : World)
      → Writes seen w (commit_runtime_snapshot decode parse processor seen batch w)
  unfolding commit_runtime_snapshot
  commit-Writes seen batch w =
      if_cases (Writes seen w) (not w.values.enabled || not (w.values.revision == seen)) (none, w) _
        (λ _ events g. cc)
        (λ current.
          after_processor-Writes seen batch w
            (processor w.values (batch_events decode parse processor batch)) (ground arith) refl)

  commit_read-Writes :
      (seen : ℕ) (r : Result (TargetBatch decode parse processor)) (w : World)
      → Writes seen w (commit_read decode parse processor seen r w)
  unfolding commit_read
  commit_read-Writes seen (ok batch) w = commit-Writes seen (some batch) w
  commit_read-Writes seen (err reason) w = λ events g. cc

  tick-Writes :
      (l : Limits) (before after : Meanwhile) (w : World)
      → Writes w.values.revision
          (pass after (pass before w))
          (tick decode parse processor l before after w)
  unfolding tick
  tick-Writes l before after w =
      if_cases (Writes seen found) (not w.values.enabled || w.failed) (none, found) _
        (λ _ events g. cc)
        (λ _.
          if_cases (Writes seen found) w.values.parent_complete
            (commit_runtime_snapshot decode parse processor seen none found) _
            (λ _. commit-Writes seen none found)
            (λ _.
              if_cases (Writes seen found) (not (any_running w.values)) (none, found) _
                (λ _ events g. cc)
                (λ _.
                  commit_read-Writes seen
                    (read_target_batch decode parse processor l (pass before w)) found)))
    where
      seen : ℕ
      seen = w.values.revision

      found : World
      found = pass after (pass before w)

  -- Whenever the engine is given events in a tick and its answer is written, however many hooks came
  -- between the snapshot, the reading of the rollout and the commit, the values that it was
  -- given are those of the snapshot, and what the tick leaves is its answer, with the revision
  -- moved on if it changed a value: the write overtakes no hook.
  pub tick_writes_snapshot :
      (l : Limits) (before after : Meanwhile) (w : World) (events : List E)
      → (tick decode parse processor l before after w).0 ≡ some events
      → ((pass after (pass before w)).values ≡ w.values)
        × (active : Bool) × (answer : RuntimeValues) × (processor w.values events
            ≡ ok (active, answer))
        × ((tick decode parse processor l before after w).1.values
            ≡ revised decode parse processor w.values answer)
  tick_writes_snapshot l before after w events g =
      let (same, active, answer, answered, written) = tick-Writes l before after w events g in
      let kept =
        unmoved w.values (pass after (pass before w)).values
          (IsMoved-trans w.values (pass before w).values (pass after (pass before w)).values
            (pass-IsMoved before w) (pass-IsMoved after (pass before w)))
          same in
      (
        kept,
        active,
        answer,
        subst (λ v. processor v events ≡ ok (active, answer)) kept answered,
        subst
            (λ v.
              (tick decode parse processor l before after w).1.values
              ≡ revised decode parse processor v answer)
            kept written,
      )
