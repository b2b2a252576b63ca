-- ===== src/Scheduler/Once.antt =====
-- Each registration fires at most once, and what a later call does to the earlier ones.
use codex_must_work.Prelude.{
  suc, ltb, ◌++◌, ℕ, ◌+◌, ◌≤◌, ◌≡◌, ◌≢◌, refl, ap, ◌∙◌, String, Option, none, some, List, [], ◌∷◌,
  arith, eq_iff, All, get, get-put, get-remove, if_cases,
}
use codex_must_work.Scheduler.{
  Entry, DeadlineScheduler, Result, ok, err, init, schedule, cancel, close, Next, exits, waits,
  sleeps_until, runs, next_entry, returned, raised, escaped, finish_callback, discard_stale,
}
use codex_must_work.Scheduler.Invariant.{
  IsSound, init-IsSound, schedule-IsSound, schedule-ok, cancel-IsSound, turn, turn_at,
  next_entry-turn,
}
use codex_must_work.Scheduler.Due.{next_entry-turn_eq, run_is_due, turn_at-runs, turn-runs}
use codex_must_work.Scheduler.Histories.{
  Op, schedules, cancels, closes, takes, finishes, after, taken, fired_by, perform, fires, fired,
  perform-IsSound,
}

-- A generation that was handed out and that no key is registered under.
pub record IsSpent (g : ℕ) (s : DeadlineScheduler) : Type 0 where
  pub issued : g ≤ s.sequence
  pub unregistered : (key : String) → get s.generations key ≢ some g

schedule-IsSpent :
    (s s' : DeadlineScheduler) (key : String) (d c g : ℕ)
    → IsSpent g s
    → schedule s key d c ≡ ok s'
    → IsSpent g s'
schedule-IsSpent s s' key d c g v h = rw (schedule-ok s key d c s' h) (record {
  issued = omega (arith, v.issued);
  unregistered = λ j r.
      ground (arith, r, get-put s.generations key j (s.sequence + 1), v.issued, v.unregistered j);
})

-- A step that registers nothing keeps a generation spent.
IsSpent-shrink :
    (s s' : DeadlineScheduler) (g : ℕ)
    → s'.sequence ≡ s.sequence
    → ((key : String) (n : ℕ) → get s'.generations key ≡ some n → get s.generations key ≡ some n)
    → IsSpent g s
    → IsSpent g s'
IsSpent-shrink s s' g e f v = record {
  issued = rw e v.issued;
  unregistered = λ key r. v.unregistered key (f key g r);
}

IsSpent-emptied :
    (s s' : DeadlineScheduler) (g : ℕ)
    → s'.sequence ≡ s.sequence
    → s'.generations ≡ []
    → IsSpent g s
    → IsSpent g s'
unfolding get
IsSpent-emptied s s' g e f v = record {
  issued = rw e v.issued;
  unregistered = λ key. rw f (λ r. cc);
}

turn_at-shrinks :
    (now : ℕ) (s : DeadlineScheduler) (es : List Entry)
    → ((turn_at now s es).1.sequence ≡ s.sequence)
      × ((key : String) (n : ℕ)
          → get (turn_at now s es).1.generations key ≡ some n
          → get s.generations key ≡ some n)
unfolding turn_at
turn_at-shrinks now s [] = (refl, λ key n h. h)
turn_at-shrinks now s (e ∷ es) =
    if_cases
      (λ (p : Next × DeadlineScheduler).
        (p.1.sequence ≡ s.sequence)
        × ((key : String) (n : ℕ)
            → get p.1.generations key ≡ some n
            → get s.generations key ≡ some n))
      (ltb now e.deadline) _ _ (λ c. (refl, λ key n h. h))
      (λ c. (refl, λ key n h. ground (arith, h, get-remove s.generations e.key key)))

turn-IsSpent : (now g : ℕ) (s : DeadlineScheduler) → IsSpent g s → IsSpent g (turn now s).1
unfolding turn
turn-IsSpent now g s v =
    if_cases (λ (p : Next × DeadlineScheduler). IsSpent g p.1) s.closed _ _ (λ c. v)
      (λ c.
        let shrinks = turn_at-shrinks now s (discard_stale s.generations s.entries) in
        IsSpent-shrink s _ g shrinks.0 shrinks.1 v)

perform-IsSpent : (g : ℕ) (s : DeadlineScheduler) (o : Op) → IsSpent g s → IsSpent g (perform s o)
unfolding perform
perform-IsSpent g s (schedules key d c) v = by_result (schedule s key d c) refl
  where
    by_result : (r : Result DeadlineScheduler) → schedule s key d c ≡ r → IsSpent g (after s r)
    by_result (ok s') h = schedule-IsSpent s s' key d c g v h
    by_result (err e) h = v
perform-IsSpent g s (cancels key) v =
    unfold cancel in
    IsSpent-shrink s _ g refl (λ j n h. ground (arith, h, get-remove s.generations key j)) v
perform-IsSpent g s closes v =
    unfold close in
    if_cases (IsSpent g) s.closed _ _ (λ c. v) (λ c. IsSpent-emptied s _ g refl refl v)
perform-IsSpent g s (takes now) v = rw (next_entry-turn 0 now s) (turn-IsSpent now g s v)
perform-IsSpent g s (finishes returned) v =
    unfold finish_callback in IsSpent-shrink s _ g refl (λ j n h. h) v
perform-IsSpent g s (finishes raised) v =
    unfold finish_callback in IsSpent-shrink s _ g refl (λ j n h. h) v
perform-IsSpent g s (finishes escaped) v =
    unfold finish_callback in IsSpent-emptied s _ g refl refl v

-- A generation does not fire.
abbrev pub Avoids : ℕ → List Entry → Type 0
Avoids g es = All (λ e. e.generation ≢ g) es

All-append {ℓ κ} :
    {A : Type ℓ} (P : A → Type κ) (xs ys : List A) → All P xs → All P ys → All P (xs ++ ys)
All-append P [] ys p q = q
All-append P (x ∷ xs) ys p q = (p.0, All-append P xs ys p.1 q)

module _ (s : DeadlineScheduler) (v : IsSound s) (now : ℕ) where
  fired_by-spent :
      (g : ℕ) (r : Option (Next × DeadlineScheduler))
      → next_entry 1 now s ≡ r
      → IsSpent g s
      → Avoids g (fired_by r)
  fired_by-spent g none h p = tt
  fired_by-spent g (some (exits, s')) h p = tt
  fired_by-spent g (some (waits, s')) h p = tt
  fired_by-spent g (some (sleeps_until d, s')) h p = tt
  fired_by-spent g (some (runs e, s')) h p =
      ((λ q. p.unregistered e.key ((run_is_due 0 now s e s' v h).1 ∙ ap some q)), tt)

fires-spent :
    (g : ℕ) (s : DeadlineScheduler) (o : Op) → IsSound s → IsSpent g s → Avoids g (fires s o)
unfolding fires
fires-spent g s (takes now) v p = fired_by-spent s v now g _ refl p
fires-spent g s (schedules k d c) v p = tt
fires-spent g s (cancels k) v p = tt
fires-spent g s closes v p = tt
fires-spent g s (finishes o) v p = tt

fired-spent :
    (g : ℕ) (s : DeadlineScheduler) (os : List Op) → IsSound s → IsSpent g s → Avoids g (fired s os)
unfolding fired
fired-spent g s [] v p = tt
fired-spent g s (o ∷ os) v p =
    All-append _ (fires s o) _ (fires-spent g s o v p)
      (fired-spent g (perform s o) os (perform-IsSound s o v) (perform-IsSpent g s o p))

-- No two entries of the list carry the same generation.
abbrev pub Distinct : List Entry → Type 0
Distinct [] = Unit {0}
Distinct (e ∷ es) = Avoids e.generation es × Distinct es

-- What a turn of the worker fires is spent afterwards.
run-IsSpent :
    (now : ℕ) (s : DeadlineScheduler) (e : Entry) (s' : DeadlineScheduler)
    → IsSound s
    → next_entry 1 now s ≡ some (runs e, s')
    → IsSpent e.generation s'
run-IsSpent now s e s' v h =
    let (due, was, gone, least) = run_is_due 0 now s e s' v h in
    let turned = next_entry-turn_eq 0 now s (runs e) s' h in
    let (rest, found, _, after) = turn_at-runs now s _ e s' (turn-runs now s e s' turned) in
    record {
      issued = rw after (v.issued e.key e.generation was);
      unregistered = rw after (λ key r. ground (
        arith,
        r,
        was,
        get-remove s.generations e.key key,
        eq_iff e.key key,
        v.distinct e.key key e.generation,
      ));
    }

module _ (s : DeadlineScheduler) (v : IsSound s) (now : ℕ) where
  taken-Distinct :
      (es : List Entry) (r : Option (Next × DeadlineScheduler))
      → next_entry 1 now s ≡ r
      → Distinct es
      → ((g : ℕ) → IsSpent g (taken s r) → Avoids g es)
      → Distinct (fired_by r ++ es)
  taken-Distinct es none h d f = d
  taken-Distinct es (some (exits, s')) h d f = d
  taken-Distinct es (some (waits, s')) h d f = d
  taken-Distinct es (some (sleeps_until t, s')) h d f = d
  taken-Distinct es (some (runs e, s')) h d f = (f e.generation (run-IsSpent now s e s' v h), d)

fired-Distinct : (s : DeadlineScheduler) (os : List Op) → IsSound s → Distinct (fired s os)
unfolding fired fires perform
fired-Distinct s [] v = tt
fired-Distinct s (takes now ∷ os) v =
    taken-Distinct s v now _ _ refl
      (fired-Distinct (perform s (takes now)) os (perform-IsSound s (takes now) v))
      (λ g p. fired-spent g _ os (perform-IsSound s (takes now) v) p)
fired-Distinct s (schedules k d c ∷ os) v =
    fired-Distinct (perform s (schedules k d c)) os (perform-IsSound s (schedules k d c) v)
fired-Distinct s (cancels k ∷ os) v =
    fired-Distinct (perform s (cancels k)) os (perform-IsSound s (cancels k) v)
fired-Distinct s (closes ∷ os) v = fired-Distinct (perform s closes) os (perform-IsSound s closes v)
fired-Distinct s (finishes o ∷ os) v =
    fired-Distinct (perform s (finishes o)) os (perform-IsSound s (finishes o) v)

-- In every history of a new scheduler each registration fires at most once: no two of the entries
-- run carry the same generation.
pub fired_once : (os : List Op) → Distinct (fired init os)
fired_once os = fired-Distinct init os init-IsSound

-- After `cancel`, the worker runs no entry of that key.
cancelled_is_silent :
    (s s' : DeadlineScheduler) (key : String) (rounds now : ℕ) (e : Entry)
    → IsSound s
    → next_entry (suc rounds) now (cancel s key) ≡ some (runs e, s')
    → e.key ≢ key
cancelled_is_silent s s' key rounds now e v h same =
    let live = (run_is_due rounds now (cancel s key) e s' (cancel-IsSound s v key) h).1 in
    unfold cancel in ground (arith, live, get-remove s.generations key e.key, eq_iff key e.key)

-- After `schedule` has accepted a deadline for a key, an entry that the worker runs under that key is
-- the one of this call: the callbacks registered under the key before do not run.
replaced_by_latest :
    (s t s' : DeadlineScheduler) (key : String) (deadline callback rounds now : ℕ) (e : Entry)
    → IsSound s
    → schedule s key deadline callback ≡ ok t
    → next_entry (suc rounds) now t ≡ some (runs e, s')
    → e.key ≡ key
    → e.generation ≡ s.sequence + 1
replaced_by_latest s t s' key deadline callback rounds now e v made h same =
    let sound = schedule-IsSound s t key deadline callback v made in
    let live = (run_is_due rounds now t e s' sound h).1 in
    let known = schedule-ok s key deadline callback t made in
    ground (
      arith,
      ap (λ (u : DeadlineScheduler). get u.generations e.key) known,
      get-put s.generations key e.key (s.sequence + 1),
      eq_iff key e.key,
    )
