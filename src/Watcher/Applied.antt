-- ===== src/Watcher/Applied.antt =====
-- What the engine was given up to the saved cursor.
use codex_must_work.Prelude.{
  ℕ, ◌≤◌, ◌≡◌, refl, ap, ◌∙◌, sym, subst, Bool, Option, none, some, List, [], ◌∷◌, ◌++◌, length,
  length-append, arith, Result,
}
use codex_must_work.Monitors.{RuntimeValues}
use codex_must_work.Rollout.{RolloutCursor, seek}
use codex_must_work.Rollout.Lines.{seek-chunk, seek-grown}
use codex_must_work.Rollout.Reading.{IsRead, joined}
use codex_must_work.Rollout.Growth.{extended}
use codex_must_work.Watcher.{World, Meanwhile, pass, with_event, events_of}

module _ {A E : Type 0} (decode : List ℕ → Option A) (parse : A → Option E)
    (processor : RuntimeValues → List E → Result (Bool × RuntimeValues)) where
  -- The events are those of the complete lines from the first cursor to the saved one.
  pub record IsApplied (from : RolloutCursor) (events : List E) (w : World) : Type 0 where
    pub cursor : RolloutCursor
    pub records : List A
    pub saved : w.cursor ≡ some cursor
    pub read : IsRead decode (seek from.offset w.rollout.content) from.offset records cursor.offset
    pub within : from.offset ≤ length w.rollout.content
    pub given : events ≡ events_of decode parse processor records

  pub events_of-nil : [] ≡ events_of decode parse processor []
  unfolding events_of
  events_of-nil = refl

  with_event-append :
      (o : Option E) (xs ys : List E)
      → with_event decode parse processor o (xs ++ ys)
        ≡ with_event decode parse processor o xs ++ ys
  with_event-append none xs ys = refl
  with_event-append (some e) xs ys = refl

  events_of-append :
      (xs ys : List A)
      → events_of decode parse processor (xs ++ ys)
        ≡ events_of decode parse processor xs ++ events_of decode parse processor ys
  unfolding events_of
  events_of-append [] ys = refl
  events_of-append (x ∷ xs) ys =
      ap (with_event decode parse processor (parse x)) (events_of-append xs ys)
      ∙ with_event-append (parse x) (events_of decode parse processor xs)
          (events_of decode parse processor ys)

  -- The same cursor on a rollout that may have grown.
  unfoldable pub grown-IsApplied :
      (from : RolloutCursor) (events : List E) (w q : World) (gained : List ℕ)
      → IsApplied from events w
      → q.cursor ≡ w.cursor
      → q.rollout.content ≡ w.rollout.content ++ gained
      → IsApplied from events q
  grown-IsApplied from events w q gained a same more = record {
    cursor = a.cursor;
    records = a.records;
    saved = same ∙ a.saved;
    read =
        subst (λ u. IsRead decode u from.offset a.records a.cursor.offset)
          (sym
            (ap (seek from.offset) more ∙ seek-grown from.offset w.rollout.content gained a.within))
          (extended decode (seek from.offset w.rollout.content) gained from.offset a.cursor.offset
            a.records a.read);
    within = rw more (omega (arith, a.within, length-append w.rollout.content gained));
    given = a.given;
  }

  unfoldable pub pass-IsApplied :
      (from : RolloutCursor) (events : List E) (m : Meanwhile) (w : World)
      → IsApplied from events w
      → IsApplied from events (pass m w)
  unfolding pass
  pass-IsApplied from events m w a = grown-IsApplied from events w (pass m w) m.gained a refl refl

  -- The bytes behind the saved cursor are those that were left.
  left_at :
      (from : RolloutCursor) (content : List ℕ) (records : List A) (to : ℕ)
      (r : IsRead decode (seek from.offset content) from.offset records to)
      → seek to content ≡ r.rest
  left_at from content records to r =
      ap (λ n. seek n content) r.moved ∙ seek-chunk from.offset content r.chunk r.rest r.parts

  -- A further batch from the saved cursor on.
  pub batch-IsApplied :
      (from : RolloutCursor) (events : List E) (w q : World) (a : IsApplied from events w)
      (next : RolloutCursor) (records : List A)
      → IsRead decode (seek a.cursor.offset w.rollout.content) a.cursor.offset records next.offset
      → q.cursor ≡ some next
      → q.rollout.content ≡ w.rollout.content
      → IsApplied from (events ++ events_of decode parse processor records) q
  batch-IsApplied from events w q a next records r saved same = record {
    cursor = next;
    records = a.records ++ records;
    saved = saved;
    read =
        subst
          (λ u. IsRead decode (seek from.offset u) from.offset (a.records ++ records) next.offset)
          (sym same)
          (joined decode (seek from.offset w.rollout.content) from.offset a.cursor.offset
            next.offset a.records records a.read
            (subst (λ u. IsRead decode u a.cursor.offset records next.offset)
              (left_at from w.rollout.content a.records a.cursor.offset a.read) r));
    within = rw same a.within;
    given =
        ap (λ es. es ++ events_of decode parse processor records) a.given
        ∙ sym (events_of-append a.records records);
  }
