-- ===== src/Scheduler/Due.antt =====
-- Which callback the worker runs, and that a due one is run.
use codex_must_work.Prelude.{
  leb, ℕ, suc, ◌≤◌, ◌≡◌, inl, inr, refl, ap, ◌∙◌, String, Bool, true, false, ◌&&◌, none, some, List,
  [], ◌∷◌, arith, eq_iff, any, All, Dict, get, remove, get-remove, Bool-cases,
}
use codex_must_work.Scheduler.{
  Entry, before, is_current, discard_stale, DeadlineScheduler, Next, runs, next_entry,
}
use codex_must_work.Scheduler.Order.{
  Least, Sorted, serves, Sorted-discard_stale, discard_stale-head,
}
use codex_must_work.Scheduler.Invariant.{IsSound, turn, turn_at, next_entry-turn}

-- No current entry of the list stands before `e`.
abbrev pub LeastCurrent : Dict ℕ → Entry → List Entry → Type 0
LeastCurrent gs e es = All (λ f. is_current gs f ≡ true → before f e ≡ false) es

LeastCurrent-discard :
    (gs : Dict ℕ) (e : Entry) (es : List Entry)
    → LeastCurrent gs e (discard_stale gs es)
    → LeastCurrent gs e es
unfolding discard_stale
LeastCurrent-discard gs e [] h = tt
LeastCurrent-discard gs e (x ∷ es) h = elim (Bool-cases (is_current gs x)) [
  | inl c ↦ simp c (simp c at h)
  | inr c ↦ ((λ d. cc), LeastCurrent-discard gs e es (simp c at h))
]

Least-All : (gs : Dict ℕ) (e : Entry) (es : List Entry) → Least e es → LeastCurrent gs e es
Least-All gs e [] h = tt
Least-All gs e (x ∷ es) h = ((λ d. h.0), Least-All gs e es h.1)

before_irrefl : (e : Entry) → before e e ≡ false
before_irrefl e = ground arith

pub turn_at-runs :
    (now : ℕ) (s : DeadlineScheduler) (es : List Entry) (e : Entry) (s' : DeadlineScheduler)
    → turn_at now s es ≡ (runs e, s')
    → (rest : List Entry) × (es ≡ e ∷ rest)
      × (e.deadline ≤ now)
      × (s' ≡ record s { entries = rest; generations = remove e.key s.generations })
unfolding turn_at
turn_at-runs now s [] e s' h = cc
turn_at-runs now s (x ∷ es) e s' h = (es, ground arith, ground arith, ground arith)

pub turn-runs :
    (now : ℕ) (s : DeadlineScheduler) (e : Entry) (s' : DeadlineScheduler)
    → turn now s ≡ (runs e, s')
    → turn_at now s (discard_stale s.generations s.entries) ≡ (runs e, s')
unfolding turn
turn-runs now s e s' h = ground arith

pub next_entry-turn_eq :
    (rounds now : ℕ) (s : DeadlineScheduler) (n : Next) (s' : DeadlineScheduler)
    → next_entry (suc rounds) now s ≡ some (n, s')
    → turn now s ≡ (n, s')
next_entry-turn_eq rounds now s n s' h = cc (next_entry-turn rounds now s)

-- The entry that the worker runs is due and is the one registered last under its key; no current
-- entry comes before it, and its key has no registration afterwards.
pub run_is_due :
    (rounds now : ℕ) (s : DeadlineScheduler) (e : Entry) (s' : DeadlineScheduler)
    → IsSound s
    → next_entry (suc rounds) now s ≡ some (runs e, s')
    → (e.deadline ≤ now)
      × (get s.generations e.key ≡ some e.generation)
      × (get s'.generations e.key ≡ none)
      × LeastCurrent s.generations e s.entries
run_is_due rounds now s e s' v h =
    let (rest, found, due, after) =
      turn_at-runs now s _ e s'
        (turn-runs now s e s' (next_entry-turn_eq rounds now s (runs e) s' h)) in
    let current = discard_stale-head s.generations s.entries e rest found in
    let sorted : Sorted (e ∷ rest) =
      rw found at (Sorted-discard_stale s.generations s.entries v.ordered) in
    (
      due,
      ground arith,
      rw after (ground (arith, get-remove s.generations e.key e.key, eq_iff e.key e.key)),
      LeastCurrent-discard s.generations e s.entries
          (rw found ((λ c. before_irrefl e), Least-All s.generations e rest sorted.0)),
    )

-- A registration whose entry is due.
abbrev pub is_due : String → ℕ → ℕ → Entry → Bool
is_due key g now e = serves key g e && leb e.deadline now

any_due-discard_stale :
    (gs : Dict ℕ) (key : String) (g now : ℕ) (es : List Entry)
    → get gs key ≡ some g
    → any (is_due key g now) (discard_stale gs es) ≡ any (is_due key g now) es
unfolding discard_stale
any_due-discard_stale gs key g now [] r = refl
any_due-discard_stale gs key g now (e ∷ es) r = elim (Bool-cases (is_current gs e)) [
  | inl c ↦ rw c
  | inr c ↦ rw c (ground (arith, eq_iff e.key key, any_due-discard_stale gs key g now es r))
]

Least-due :
    (e : Entry) (es : List Entry) (key : String) (g now : ℕ)
    → Least e es
    → any (is_due key g now) (e ∷ es) ≡ true
    → e.deadline ≤ now
Least-due e [] key g now l h = ground arith
Least-due e (x ∷ es) key g now l h = ground (arith, Least-due e es key g now l.1)

turn_at-due :
    (now : ℕ) (s : DeadlineScheduler) (es : List Entry) (key : String) (g : ℕ)
    → Sorted es
    → any (is_due key g now) es ≡ true
    → (e : Entry) × (s' : DeadlineScheduler) × (turn_at now s es ≡ (runs e, s'))
unfolding turn_at
turn_at-due now s [] key g v h = absurd (cc)
turn_at-due now s (e ∷ es) key g v h =
    let due = Least-due e es key g now v.0 h in
    (e, record s { entries = es; generations = remove e.key s.generations }, ground arith)

-- A due registration is never left waiting: while the scheduler is open and some key is registered
-- with an entry whose deadline has come, the worker runs a callback, it neither waits nor sleeps.
pub due_runs :
    (rounds now : ℕ) (s : DeadlineScheduler) (key : String) (g : ℕ)
    → IsSound s
    → s.closed ≡ false
    → get s.generations key ≡ some g
    → any (is_due key g now) s.entries ≡ true
    → (e : Entry) × (s' : DeadlineScheduler) × (next_entry (suc rounds) now s ≡ some (runs e, s'))
due_runs rounds now s key g v running r h =
    let (e, s', found) =
      turn_at-due now s _ key g (Sorted-discard_stale s.generations s.entries v.ordered)
        (any_due-discard_stale s.generations key g now s.entries r ∙ h) in
    (e, s', next_entry-turn rounds now s ∙ ap some (unfold turn in simp running found))
