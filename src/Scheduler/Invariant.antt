-- ===== src/Scheduler/Invariant.antt =====
-- The invariant of the scheduler, kept by every method and by the worker.
use codex_must_work.Prelude.{
  ◌∙◌, ap, if_cases, sym, remove, Bool-cases, inl, inr, ltb, if◌then◌else◌, false, Bool-cases,
  false, suc, ℕ, ◌+◌, ◌≤◌, ◌≡◌, refl, String, Bool, true, some, List, [], ◌∷◌, arith, eq_iff, All,
  get, put, get-put, get-remove,
}
use codex_must_work.Scheduler.{
  returned, raised, escaped, discard_stale, Outcome, next_entry, finish_callback, close, Next,
  Entry, heappush, DeadlineScheduler, ok, init, schedule, cancel,
}
use codex_must_work.Scheduler.Order.{
  All-discard_stale, Sorted-discard_stale, holds-discard_stale, discard_stale-head, Sorted, holds,
  Sorted-heappush, holds-heappush, All-heappush,
}

-- An entry's generation is its sequence number, and has been handed out.
abbrev pub IsNumbered : ℕ → Entry → Type 0
IsNumbered n e = (e.generation ≡ e.sequence) × (e.sequence ≤ n)

pub record IsSound (s : DeadlineScheduler) : Type 0 where
  pub ordered : Sorted s.entries
  pub numbered : All (IsNumbered s.sequence) s.entries
  pub pending :
      (key : String) (g : ℕ) → get s.generations key ≡ some g → holds key g s.entries ≡ true
  pub issued : (key : String) (g : ℕ) → get s.generations key ≡ some g → g ≤ s.sequence
  pub distinct :
      (key other : String) (g : ℕ)
      → get s.generations key ≡ some g
      → get s.generations other ≡ some g
      → key ≡ other

All-mono {ℓ κ} :
    {A : Type 0} {P : A → Type ℓ} {Q : A → Type κ} (xs : List A)
    → ((x : A) → P x → Q x)
    → All P xs
    → All Q xs
All-mono [] f h = tt
All-mono (x ∷ xs) f h = (f x h.0, All-mono xs f h.1)

pub init-IsSound : IsSound init
unfolding init get
init-IsSound = record {
  ordered = tt;
  numbered = tt;
  pending = λ key g h. cc;
  issued = λ key g h. cc;
  distinct = λ key other g h k. cc;
}

module _ (s : DeadlineScheduler) (key : String) (deadline callback : ℕ) where
  abbrev pub new_entry : Entry
  new_entry = record {
    deadline = deadline;
    sequence = s.sequence + 1;
    key = key;
    generation = s.sequence + 1;
    callback = callback;
  }

  abbrev pub scheduled : DeadlineScheduler
  scheduled = record s {
    sequence = s.sequence + 1;
    generations = put key (s.sequence + 1) s.generations;
    entries = heappush new_entry s.entries;
  }

  scheduled-IsSound : IsSound s → IsSound scheduled
  scheduled-IsSound v = record {
    ordered = Sorted-heappush new_entry s.entries v.ordered;
    numbered =
        All-heappush (IsNumbered (s.sequence + 1)) new_entry s.entries (refl, omega arith)
          (All-mono s.entries (λ e h. (h.0, omega (arith, h.1))) v.numbered);
    pending = λ j g h. ground (
      arith,
      h,
      get-put s.generations key j (s.sequence + 1),
      holds-heappush j g new_entry s.entries,
      v.pending j g,
      eq_iff key j,
    );
    issued = λ j g h. ground (arith, h, get-put s.generations key j (s.sequence + 1), v.issued j g);
    distinct = λ j k g h i. ground (
      arith,
      h,
      i,
      get-put s.generations key j (s.sequence + 1),
      get-put s.generations key k (s.sequence + 1),
      eq_iff key j,
      eq_iff key k,
      v.issued j g,
      v.issued k g,
      v.distinct j k g,
    );
  }

  pub schedule-ok :
      (s' : DeadlineScheduler) → schedule s key deadline callback ≡ ok s' → s' ≡ scheduled
  unfolding schedule
  schedule-ok s' h = ground arith

pub schedule-IsSound :
    (s s' : DeadlineScheduler) (key : String) (deadline callback : ℕ)
    → IsSound s
    → schedule s key deadline callback ≡ ok s'
    → IsSound s'
schedule-IsSound s s' key deadline callback v h =
    rw (schedule-ok s key deadline callback s' h) (scheduled-IsSound s key deadline callback v)

-- Taking registrations away and dropping entries that serve none.
module _ (s : DeadlineScheduler) (v : IsSound s) where
  pub cancel-IsSound : (key : String) → IsSound (cancel s key)
  unfolding cancel
  cancel-IsSound key = record {
    ordered = v.ordered;
    numbered = v.numbered;
    pending = λ j g h. ground (arith, h, get-remove s.generations key j, v.pending j g);
    issued = λ j g h. ground (arith, h, get-remove s.generations key j, v.issued j g);
    distinct = λ j k g h i. ground (
      arith,
      h,
      i,
      get-remove s.generations key j,
      get-remove s.generations key k,
      v.distinct j k g,
    );
  }

  pub emptied-IsSound :
      (closed : Bool) (s' : DeadlineScheduler) → s'.entries ≡ [] → s'.generations ≡ [] → IsSound s'
  unfolding get
  emptied-IsSound closed s' e g = record {
    ordered = rw e tt;
    numbered = rw e tt;
    pending = λ key n h. ground arith;
    issued = λ key n h. ground arith;
    distinct = λ key other n h i. ground arith;
  }

-- The parts of the invariant speak of three fields only.
IsSound-transfer :
    (s s' : DeadlineScheduler)
    → s'.entries ≡ s.entries
    → s'.generations ≡ s.generations
    → s'.sequence ≡ s.sequence
    → IsSound s
    → IsSound s'
IsSound-transfer s s' e g n v = record {
  ordered = rw e v.ordered;
  numbered = rw (e, n) v.numbered;
  pending = rw (e, g) v.pending;
  issued = rw (g, n) v.issued;
  distinct = rw g v.distinct;
}

IsSound-emptied : (s : DeadlineScheduler) → s.entries ≡ [] → s.generations ≡ [] → IsSound s
unfolding get
IsSound-emptied s e g = record {
  ordered = rw e tt;
  numbered = rw e tt;
  pending = λ key n h. ground arith;
  issued = λ key n h. ground arith;
  distinct = λ key other n h i. ground arith;
}

pub close-IsSound : (s : DeadlineScheduler) → IsSound s → IsSound (close s)
unfolding close
close-IsSound s v = elim (Bool-cases s.closed) [
  | inl c ↦ simp c v
  | inr c ↦ simp c (IsSound-emptied _ refl refl)
]

pub finish_callback-IsSound :
    (s : DeadlineScheduler) (o : Outcome) → IsSound s → IsSound (finish_callback s o)
unfolding finish_callback
finish_callback-IsSound s returned v = IsSound-transfer s _ refl refl refl v
finish_callback-IsSound s raised v = IsSound-transfer s _ refl refl refl v
finish_callback-IsSound s escaped v = IsSound-emptied _ refl refl

-- One pass of the worker's loop with no way back to its head.
unfoldable pub turn_at : ℕ → DeadlineScheduler → List Entry → Next × DeadlineScheduler
turn_at now s [] = (Next.waits, record s { entries = [] })
turn_at now s (e ∷ es) =
    if ltb now e.deadline
    then (Next.sleeps_until e.deadline, record s { entries = e ∷ es })
    else (Next.runs e, record s { entries = es; generations = remove e.key s.generations })

unfoldable pub turn : ℕ → DeadlineScheduler → Next × DeadlineScheduler
unfolding turn_at
turn now s =
    if s.closed then (Next.exits, s) else turn_at now s (discard_stale s.generations s.entries)

pub next_entry-at :
    (rounds now : ℕ) (s : DeadlineScheduler) (es : List Entry)
    → s.closed ≡ false
    → discard_stale s.generations s.entries ≡ es
    → next_entry (suc rounds) now s ≡ some (turn_at now s es)
unfolding next_entry turn_at
next_entry-at rounds now s [] c h = simp (c, h)
next_entry-at rounds now s (e ∷ es) c h =
    let current = discard_stale-head s.generations s.entries e es h in
    simp (c, h, current) (ground arith)

-- The check of the generation behind `heappop` never sends the worker back: whatever the number of
-- rounds allowed, from one on, the first round settles what it does.
pub next_entry-turn :
    (rounds now : ℕ) (s : DeadlineScheduler) → next_entry (suc rounds) now s ≡ some (turn now s)
unfolding turn
next_entry-turn rounds now s = elim (Bool-cases s.closed) [
  | inl c ↦ unfold next_entry in simp c
  | inr c ↦ simp (next_entry-at rounds now s _ c refl, c)
]

turn_at-IsSound :
    (now : ℕ) (s : DeadlineScheduler) (es : List Entry)
    → IsSound s
    → discard_stale s.generations s.entries ≡ es
    → IsSound (turn_at now s es).1
unfolding turn_at
turn_at-IsSound now s [] v h = record {
  ordered = tt;
  numbered = tt;
  pending = λ j g r.
      let left = sym (holds-discard_stale s.generations j g s.entries r) in
      ground (arith, left, v.pending j g r, ap (holds j g) h);
  issued = v.issued;
  distinct = v.distinct;
}
turn_at-IsSound now s (e ∷ es) v h =
    let sorted : Sorted (e ∷ es) =
      rw h at (Sorted-discard_stale s.generations s.entries v.ordered) in
    let numbered : All (IsNumbered s.sequence) (e ∷ es) =
      rw h at (All-discard_stale (IsNumbered s.sequence) s.generations s.entries v.numbered) in
    let kept : (j : String) (g : ℕ) → get s.generations j ≡ some g → holds j g (e ∷ es) ≡ true =
      λ j g r.
        ap (holds j g) (sym h)
        ∙ holds-discard_stale s.generations j g s.entries r
        ∙ v.pending j g r in
    if_cases (λ (p : Next × DeadlineScheduler). IsSound p.1) (ltb now e.deadline) _ _
      (λ c. record {
        ordered = sorted;
        numbered = numbered;
        pending = kept;
        issued = v.issued;
        distinct = v.distinct;
      })
      (λ c. record {
        ordered = sorted.1;
        numbered = numbered.1;
        pending =
            λ j g r. ground (arith, r, get-remove s.generations e.key j, kept j g, eq_iff e.key j);
        issued = λ j g r. ground (arith, r, get-remove s.generations e.key j, v.issued j g);
        distinct = λ j k g r q. ground (
          arith,
          r,
          q,
          get-remove s.generations e.key j,
          get-remove s.generations e.key k,
          v.distinct j k g,
        );
      })

pub turn-IsSound : (now : ℕ) (s : DeadlineScheduler) → IsSound s → IsSound (turn now s).1
unfolding turn
turn-IsSound now s v =
    if_cases (λ (p : Next × DeadlineScheduler). IsSound p.1) s.closed _ _ (λ c. v)
      (λ c. turn_at-IsSound now s _ v refl)
