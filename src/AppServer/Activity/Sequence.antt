-- ===== src/AppServer/Activity/Sequence.antt =====
-- The observations that a stream retains: the newest 512 of them, numbered without a gap.
use codex_must_work.Prelude.{
  ℕ, suc, ◌+◌, ◌-◌, ◌≡◌, ◌≤◌, max, refl, Bool, true, ◌&&◌, Option, none, some, List, [], ◌∷◌, ◌++◌,
  ltb, leb, ◌==◌, length, length-append, arith, if◌then◌else◌,
}
use codex_must_work.AppServer.Activity.{
  AppServerActivityStream, ActivityObservation, StreamCall, max_observations, append, new_stream,
  run, call, deliver, after, first_after,
}
use codex_must_work.AppServer.Activity.Cases.{
  Moves, keeps, publishes, closes, renews, call-Moves, observe,
}
use codex_must_work.Registry.Routing.{AppServerActivity}
use codex_must_work.Prelude.{subst, Bool-cases, inl, inr, ◌<◌, ◌∙◌}

-- Each observation has the number after the one before it; the first one, the number after `n`.
abbrev numbered : ℕ → List ActivityObservation → Bool
numbered n [] = true
numbered n (o ∷ os) = (o.sequence == suc n) && numbered (suc n) os

abbrev retained : ℕ → ℕ
retained sequence = if leb sequence max_observations then sequence else max_observations

record IsNumbered (s : AppServerActivityStream) : Type 0 where
  count : length s.observations ≡ retained s.sequence
  order : numbered (s.sequence - length s.observations) s.observations ≡ true

numbered-append :
    (n : ℕ) (os : List ActivityObservation) (o : ActivityObservation)
    → numbered n os ≡ true
    → o.sequence ≡ suc (n + length os)
    → numbered n (os ++ (o ∷ [])) ≡ true
numbered-append n [] o h e = ground arith
numbered-append n (p ∷ os) o h e = ground (arith, numbered-append (suc n) os o)

length-append_bounded :
    (os : List ActivityObservation) (o : ActivityObservation)
    → length os ≤ max_observations
    → length (append max_observations os o)
      ≡ (if ltb (length os) max_observations then suc (length os) else max_observations)
unfolding append
length-append_bounded [] o h = refl
length-append_bounded (p ∷ os) o h = ground (arith, length-append os (o ∷ []))

numbered-append_bounded :
    (n : ℕ) (os : List ActivityObservation) (o : ActivityObservation)
    → length os ≤ max_observations
    → numbered n os ≡ true
    → o.sequence ≡ suc (n + length os)
    → numbered
        (if ltb (length os) max_observations then n else suc n)
        (append max_observations os o)
      ≡ true
unfolding append
numbered-append_bounded n [] o h d e = ground arith
numbered-append_bounded n (p ∷ os) o h d e =
    ground (arith, length-append os (o ∷ []), numbered-append (suc n) os o)

grown :
    (s q : AppServerActivityStream) (o : ActivityObservation)
    → IsNumbered s
    → o.sequence ≡ s.sequence + 1
    → q.observations ≡ append max_observations s.observations o
    → q.sequence ≡ s.sequence + 1
    → IsNumbered q
grown s q o i e observed next = record {
  count = rw (observed, next) (ground (arith, i.count, bounded));
  order =
      rw (observed, next)
        (subst (λ n. numbered n (append max_observations s.observations o) ≡ true)
          (ground (arith, i.count, bounded))
          (numbered-append_bounded (s.sequence - length s.observations) s.observations o
            (ground (arith, i.count)) i.order (ground (arith, i.count))));
}
  where
    bounded : length (append max_observations s.observations o) ≡ (
        if ltb (length s.observations) max_observations
        then suc (length s.observations)
        else max_observations)
    bounded = length-append_bounded s.observations o (ground (arith, i.count))

same :
    (s q : AppServerActivityStream)
    → IsNumbered s
    → q.observations ≡ s.observations
    → q.sequence ≡ s.sequence
    → IsNumbered q
same s q i observed next = record {
  count = rw (observed, next) i.count;
  order = rw (observed, next) i.order;
}

Moves-IsNumbered :
    {s q : AppServerActivityStream} {d : Option AppServerActivity}
    → Moves s q d
    → IsNumbered s
    → IsNumbered q
Moves-IsNumbered {s} {q} (keeps a b c d e) i = same s q i b c
Moves-IsNumbered {s} {q} (publishes a b c d e f g) i = grown s q (observe a s) i refl c d
Moves-IsNumbered {s} {q} (closes a b c d e f g) i = grown s q (observe a s) i refl c d
Moves-IsNumbered {s} {q} (renews a b c d) i = same s q i b c

deliver_keeps :
    (a : Option AppServerActivity) (r : List AppServerActivity × AppServerActivityStream)
    → IsNumbered r.1
    → IsNumbered (deliver a r).1
deliver_keeps none (d, q) i = i
deliver_keeps (some a) (d, q) i = i

run-IsNumbered :
    (s : AppServerActivityStream) (cs : List StreamCall) → IsNumbered s → IsNumbered (run s cs).1
unfolding run
run-IsNumbered s [] i = i
run-IsNumbered s (c ∷ cs) i =
    deliver_keeps (call s c).0.delivered (run (call s c).1 cs)
      (run-IsNumbered (call s c).1 cs (Moves-IsNumbered (call-Moves s c) i))

-- The sequence of the observation that a reader gets.
abbrev pub found : Option ActivityObservation → Option ℕ
found none = none
found (some o) = some o.sequence

-- A reader that is not behind the retained observations.
first_after-numbered :
    (k n : ℕ) (os : List ActivityObservation)
    → n ≤ k
    → numbered n os ≡ true
    → found (first_after k os) ≡ (if leb (n + length os) k then none else some (suc k))
unfolding first_after
first_after-numbered k n [] le h = ground arith
first_after-numbered k n (o ∷ os) le h = elim (Bool-cases (ltb k o.sequence)) [
  | inl newer ↦ simp (newer) (ground arith)
  | inr older ↦ simp (older) (
      subst (λ m. found (first_after k os) ≡ (if leb m k then none else some (suc k))) (omega arith)
        (first_after-numbered k (suc n) os (ground arith) (ground arith)))
]

-- A reader that is behind them.
first_after_behind :
    (k n : ℕ) (os : List ActivityObservation)
    → k < n
    → 0 < length os
    → numbered n os ≡ true
    → found (first_after k os) ≡ some (suc n)
unfolding first_after
first_after_behind k n [] lt some_left h = absurd (omega arith)
first_after_behind k n (o ∷ os) lt some_left h = ground arith

IsNumbered-after :
    (k : ℕ) (s : AppServerActivityStream)
    → IsNumbered s
    → found (after k s)
      ≡ (if leb s.sequence k then none else some (suc (max k (s.sequence - max_observations))))
unfolding after
IsNumbered-after k s i = elim (Bool-cases (ltb k (s.sequence - length s.observations))) [
  | inl behind ↦
      (first_after_behind k (s.sequence - length s.observations) s.observations (ground arith)
        (ground (arith, i.count)) i.order)
      ∙ ground (arith, i.count)
  | inr level ↦
      (first_after-numbered k (s.sequence - length s.observations) s.observations (ground arith)
        i.order)
      ∙ ground (arith, i.count)
]

-- A reader that asks for what came after observation k, whatever calls the threads have made on
-- the stream and whatever connections were lost and renewed among them, gets nothing if k is the
-- newest observation or later; otherwise it gets observation k + 1, or the oldest of the newest
-- 512 if that one is gone. So a reader that is at most 512 behind misses none.
pub after-run :
    (cs : List StreamCall) (k : ℕ)
    → found (after k (run new_stream cs).1) ≡ (
        if leb (run new_stream cs).1.sequence k
        then none
        else some (suc (max k ((run new_stream cs).1.sequence - max_observations))))
after-run cs k =
    IsNumbered-after k (run new_stream cs).1
      (run-IsNumbered new_stream cs (record { count = refl; order = refl }))
