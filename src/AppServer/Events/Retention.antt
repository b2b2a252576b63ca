-- ===== src/AppServer/Events/Retention.antt =====
-- What a connection may retain, and the writes that leave its outcomes alone.
use codex_must_work.Prelude.{
  length-remove, length-remove-has, length-put-has, get-has, ℕ, ◌≤◌, ◌≡◌, refl, String, Bool, true,
  false, not, ◌&&◌, ◌||◌, Option, none, some, List, [], ◌∷◌, ◌++◌, leb, length, keep, str_eq,
  eq_iff, is_none, arith, Dict, get, put, has, Bool-cases, Option-cases, inl, inr,
}
use codex_must_work.AppServer.Events.{
  AppServerEventState, TurnCorrelation, max_retained_turn_outcomes, max_turn_correlations, expire,
  expire_each, expire_correlations, correlate_turn, record_started, bind_started_turn,
  close_correlation, activate, is_expired,
}

abbrev pub contains : String → List String → Bool
contains x [] = false
contains x (y ∷ ys) = str_eq y x || contains x ys

abbrev pub no_repeats : List String → Bool
no_repeats [] = true
no_repeats (x ∷ xs) = not (contains x xs) && no_repeats xs

pub record IsBounded (s : AppServerEventState) : Type 0 where
  -- At most 512 completed turns, each once, and these are the turns with an outcome.
  pub completed : length s.completed_turns ≤ max_retained_turn_outcomes
  pub distinct : no_repeats s.completed_turns ≡ true
  pub agree : (turn : String) → has s.turn_outcomes turn ≡ contains turn s.completed_turns
  pub outcomes : length s.turn_outcomes ≤ length s.completed_turns
  -- At most 2048 correlations.
  pub correlated : length s.turn_correlations ≤ max_turn_correlations

pub contains-append :
    (x y : String) (xs : List String) → contains x (xs ++ (y ∷ [])) ≡ (contains x xs || str_eq y x)
contains-append x y [] = ground arith
contains-append x y (z ∷ xs) = ground (arith, contains-append x y xs)

pub no_repeats-append :
    (y : String) (xs : List String)
    → no_repeats xs ≡ true
    → contains y xs ≡ false
    → no_repeats (xs ++ (y ∷ [])) ≡ true
no_repeats-append y [] d h = refl
no_repeats-append y (z ∷ xs) d h =
    ground (arith, no_repeats-append y xs, contains-append z y xs, eq_iff y z, eq_iff z y)

-- Only the outcomes, the completed turns and the correlations are bounded; the rest may change.
abbrev IsKept : AppServerEventState → AppServerEventState → Type 0
IsKept s q =
    (q.completed_turns ≡ s.completed_turns)
    × (q.turn_outcomes ≡ s.turn_outcomes)
    × (length q.turn_correlations ≤ max_turn_correlations)

pub IsKept-IsBounded : (s q : AppServerEventState) → IsBounded s → IsKept s q → IsBounded q
IsKept-IsBounded s q b (c, o, k) = record {
  completed = rw c b.completed;
  distinct = rw c b.distinct;
  agree = rw (c, o) b.agree;
  outcomes = rw (c, o) b.outcomes;
  correlated = k;
}

expire_each-IsKept :
    (expired : Dict TurnCorrelation) (s : AppServerEventState)
    → length s.turn_correlations ≤ max_turn_correlations
    → IsKept s (expire_each expired s)
unfolding expire_each expire
expire_each-IsKept [] s h = (refl, refl, h)
expire_each-IsKept ((turn, c) ∷ expired) s h =
    let less = length-remove turn s.turn_correlations in
    expire_each-IsKept expired (expire turn c s) (omega (arith, less))

put-bounded :
    (key : String) (v : TurnCorrelation) (d : Dict TurnCorrelation)
    → (not (has d key) && leb max_turn_correlations (length d)) ≡ false
    → length d ≤ max_turn_correlations
    → length (put key v d) ≤ max_turn_correlations
unfolding put
put-bounded key v d h b = ground (arith, length-remove key d, length-remove-has key d)

pub expire_correlations-IsKept :
    (now : ℕ) (s : AppServerEventState)
    → length s.turn_correlations ≤ max_turn_correlations
    → IsKept s (expire_correlations now s)
unfolding expire_correlations
expire_correlations-IsKept now s h =
    expire_each-IsKept (keep (is_expired now) s.turn_correlations) s h

correlate_turn-IsKept :
    (now : ℕ) (thread turn : String) (s : AppServerEventState)
    → length s.turn_correlations ≤ max_turn_correlations
    → IsKept s (correlate_turn now thread turn s).1
unfolding correlate_turn
correlate_turn-IsKept now thread turn s h =
    let live = expire_correlations now s in
    let (c, o, k) = expire_correlations-IsKept now s h in
    elim (Bool-cases (
      not (has live.turn_correlations turn)
      && leb max_turn_correlations (length live.turn_correlations))) [
        | inl full ↦ simp full (c, o, k)
        | inr free ↦ simp free (
          c,
          o,
          put-bounded turn (record { thread = thread; observed_at = now; live = true })
              live.turn_correlations free k,
        )
      ]

pub record_started-IsKept :
    (now : ℕ) (thread : Option String) (turn : String) (s : AppServerEventState)
    → length s.turn_correlations ≤ max_turn_correlations
    → IsKept s (record_started now thread turn s).1
unfolding record_started activate
record_started-IsKept now none turn s h = (refl, refl, h)
record_started-IsKept now (some t) turn s h =
    let started = record s { started_turns = put turn tt s.started_turns } in
    let kept = correlate_turn-IsKept now t turn started h in
    elim (Bool-cases (is_none (correlate_turn now t turn started).0)) [
      | inl free ↦ simp free kept
      | inr full ↦ simp full kept
    ]

pub bind_started_turn-IsKept :
    (now : ℕ) (thread turn : String) (s : AppServerEventState)
    → length s.turn_correlations ≤ max_turn_correlations
    → IsKept s (bind_started_turn now thread turn s).1.1
unfolding bind_started_turn activate
bind_started_turn-IsKept now thread turn s h =
    let kept = correlate_turn-IsKept now thread turn s h in ground (arith, kept)

pub close_correlation-length :
    (now : ℕ) (turn : String) (d : Dict TurnCorrelation)
    → length (close_correlation now turn d) ≤ length d
unfolding close_correlation
close_correlation-length now turn d = elim (Option-cases (get d turn)) [
  | inl e ↦ simp (close_correlation, e) (omega arith)
  | inr (c, e) ↦
      simp (close_correlation, e)
        (length-put-has turn (record { thread = c.thread; observed_at = now; live = false }) d
          (get-has turn c d e))
]
