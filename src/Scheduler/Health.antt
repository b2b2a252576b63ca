-- ===== src/Scheduler/Health.antt =====
-- The health of the scheduler, as callbacks end and after a fatal one.
use mathlib.Core.Path.{subst}
use codex_must_work.Prelude.{
  inl, inr, ◌⊎◌, sym, Bool-cases, ◌⊎◌, ℕ, ◌+◌, ◌≡◌, ◌≢◌, refl, String, Bool, true, false, some,
  List, [], ◌∷◌, arith, eq_iff, count_if, All, if_cases,
}
use codex_must_work.Scheduler.Invariant.{next_entry-at, turn_at}
use codex_must_work.Scheduler.{
  SchedulerHealth, healthy, degraded, fatal, DeadlineScheduler, err, init, schedule, cancel, close,
  discard_stale, next_entry, Next, Outcome, returned, raised, escaped, finish_callback,
}
use codex_must_work.Scheduler.Histories.{
  Op, schedules, cancels, closes, takes, finishes, perform, fires, history, fired, taken, fired_by,
}

-- The callbacks of one worker, one after another.
unfoldable pub finish_all : DeadlineScheduler → List Outcome → DeadlineScheduler
finish_all s [] = s
finish_all s (o ∷ os) = finish_all (finish_callback s o) os

abbrev pub is_raised : Outcome → Bool
is_raised raised = true
is_raised _ = false

abbrev pub is_escaped : Outcome → Bool
is_escaped escaped = true
is_escaped _ = false

-- Whether the last callback raised, `b` standing for the callbacks before.
abbrev pub last_raised : Bool → List Outcome → Bool
last_raised b [] = b
last_raised b (o ∷ os) = last_raised (is_raised o) os

abbrev pub health_of : Bool → SchedulerHealth
health_of true = degraded
health_of false = healthy

health-finish_all :
    (s : DeadlineScheduler) (b : Bool) (os : List Outcome)
    → s.health ≡ health_of b
    → All (λ o. is_escaped o ≡ false) os
    → ((finish_all s os).health ≡ health_of (last_raised b os))
      × ((finish_all s os).callback_failure_count
          ≡ s.callback_failure_count + count_if is_raised os)
unfolding finish_all finish_callback
health-finish_all s b [] h q = (h, omega arith)
health-finish_all s b (returned ∷ os) h q =
    health-finish_all (finish_callback s returned) false os (by_flag b h) q.1
  where
    by_flag : (b : Bool) → s.health ≡ health_of b → (finish_callback s returned).health ≡ healthy
    by_flag true h = ground arith
    by_flag false h = ground arith
health-finish_all s b (raised ∷ os) h q =
    let rest = health-finish_all (finish_callback s raised) true os (by_flag b h) q.1 in
    (rest.0, omega (arith, rest.1))
  where
    by_flag : (b : Bool) → s.health ≡ health_of b → (finish_callback s raised).health ≡ degraded
    by_flag true h = ground arith
    by_flag false h = ground arith
health-finish_all s b (escaped ∷ os) h q = cc (q.0)

-- As long as every callback returns or raises an `Exception`, a new scheduler is degraded exactly
-- when the latest callback raised, and healthy otherwise; the failure count is the number of
-- callbacks that raised.
health_follows_callbacks :
    (os : List Outcome)
    → All (λ o. is_escaped o ≡ false) os
    → ((finish_all init os).health ≡ health_of (last_raised false os))
      × ((finish_all init os).callback_failure_count ≡ count_if is_raised os)
unfolding init
health_follows_callbacks os q =
    let both = health-finish_all init false os refl q in (both.0, omega (arith, both.1))

pub record IsDead (s : DeadlineScheduler) : Type 0 where
  pub health : s.health ≡ fatal
  pub empty : s.entries ≡ []

IsDead-schedule :
    (s : DeadlineScheduler) (key : String) (d c : ℕ)
    → IsDead s
    → (schedule s key d c ≡ err "scheduler_unavailable")
      ⊎ (schedule s key d c ≡ err "scheduler_key_missing")
unfolding schedule
IsDead-schedule s key d c v = ground (arith, v.health)

IsDead-next_entry :
    (now : ℕ) (s : DeadlineScheduler)
    → IsDead s
    → (next_entry 1 now s ≡ some (Next.exits, s))
      ⊎ (next_entry 1 now s ≡ some (Next.waits, record s { entries = [] }))
unfolding turn_at discard_stale
IsDead-next_entry now s v = elim (Bool-cases s.closed) [
  | inl c ↦ inl (unfold next_entry in simp c)
  | inr c ↦ inr (next_entry-at 0 now s [] c (rw v.empty))
]

-- The scheduler after an operation, with what it fires.
abbrev DeadStep : DeadlineScheduler → Op → Type 0
DeadStep s o = IsDead (perform s o) × (fires s o ≡ [])

IsDead-perform : (s : DeadlineScheduler) (o : Op) → IsDead s → DeadStep s o
unfolding perform fires
IsDead-perform s (takes now) v = elim (IsDead-next_entry now s v) [
  | inl e ↦ subst (λ r. IsDead (taken s r) × (fired_by r ≡ [])) (sym e) (v, refl)
  | inr e ↦
      subst (λ r. IsDead (taken s r) × (fired_by r ≡ [])) (sym e)
        (record { health = v.health; empty = refl }, refl)
]
IsDead-perform s (schedules key d c) v = elim (IsDead-schedule s key d c v) [
  | inl e ↦ (rw e v, refl)
  | inr e ↦ (rw e v, refl)
]
IsDead-perform s (cancels key) v =
    unfold cancel in (record { health = v.health; empty = v.empty }, refl)
IsDead-perform s closes v = (
  unfold close in
      if_cases IsDead s.closed _ _ (λ c. v) (λ c. record { health = v.health; empty = refl }),
  refl,
)
IsDead-perform s (finishes returned) v =
    unfold finish_callback in (record { health = ground arith; empty = v.empty }, refl)
IsDead-perform s (finishes raised) v =
    unfold finish_callback in (record { health = ground arith; empty = v.empty }, refl)
IsDead-perform s (finishes escaped) v =
    unfold finish_callback in (record { health = refl; empty = refl }, refl)

IsDead-history :
    (s : DeadlineScheduler) (os : List Op) → IsDead s → IsDead (history s os) × (fired s os ≡ [])
unfolding history fired
IsDead-history s [] v = (v, refl)
IsDead-history s (o ∷ os) v =
    let (dead, quiet) = IsDead-perform s o v in
    let (later, rest) = IsDead-history (perform s o) os dead in (later, rw (quiet, rest))

-- Once a callback has let a `BaseException` escape, the scheduler stays fatal whatever is called, no
-- callback runs any more, and every further `schedule` with a key is refused as unavailable.
fatal_is_final :
    (s : DeadlineScheduler) (os : List Op) (key : String) (deadline callback : ℕ)
    → key ≢ ""
    → let dead = finish_callback s escaped in
      ((history dead os).health ≡ fatal)
      × (fired dead os ≡ [])
      × (schedule (history dead os) key deadline callback ≡ err "scheduler_unavailable")
unfolding finish_callback
fatal_is_final s os key deadline callback named =
    let dead : IsDead (finish_callback s escaped) = record { health = refl; empty = refl } in
    let (later, quiet) = IsDead-history (finish_callback s escaped) os dead in
    (later.health, quiet, unfold schedule in ground (arith, later.health, eq_iff key ""))
