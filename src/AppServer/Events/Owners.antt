-- ===== src/AppServer/Events/Owners.antt =====
-- Which thread a turn belongs to: a live owner is never forgotten.
use codex_must_work.Prelude.{
  eq_refl, ap, any, opt_eq, ◌++◌, ℕ, ◌≡◌, refl, String, Bool, true, false, not, ◌&&◌, Option, none,
  some, List, [], ◌∷◌, leb, length, keep, str_eq, is_none, arith, Dict, get, put, has, get-put,
  get-remove, Bool-cases, Option-cases, inl, inr, keys_distinct, keys_distinct-put,
  keys_distinct-remove, get-keep_out,
}
use codex_must_work.AppServer.{
  TurnOutcome, string_member, object_member, turn_id, thread_id, read_outcome,
}
use codex_must_work.AppServer.Events.Cases.{message_cases, notice_cases}
use codex_must_work.AppServer.Events.{
  AppServerEventState, TurnCorrelation, max_turn_correlations, expire, expire_each,
  expire_correlations, correlate_turn, thread_for_turn, remember_outcome, forget_oldest,
  record_started, record_completed, bind_started_turn, take_response, close_correlation, activate,
  is_expired,
}
use codex_must_work.AppServer.Events.Bounds.{Call, records, binds, looks_up, takes, call, calls}

-- The turn has a live correlation to the thread, in a dict that has each turn once.
abbrev pub IsOwner : String → String → Dict TurnCorrelation → Type 0
IsOwner thread turn d =
    (keys_distinct d ≡ true)
    × ((c : TurnCorrelation) × (get d turn ≡ some c) × (c.live ≡ true) × (c.thread ≡ thread))

abbrev pub Owns : String → String → AppServerEventState → Type 0
Owns thread turn s = IsOwner thread turn s.turn_correlations

expire_each-IsOwner :
    (expired : Dict TurnCorrelation) (thread turn : String) (s : AppServerEventState)
    → has expired turn ≡ false
    → Owns thread turn s
    → Owns thread turn (expire_each expired s)
unfolding expire_each expire has get
expire_each-IsOwner [] thread turn s h o = o
expire_each-IsOwner ((k, c) ∷ expired) thread turn s h (d, (r, e, l, t)) =
    expire_each-IsOwner expired thread turn (expire k c s) (ground arith) (
      keys_distinct-remove k s.turn_correlations d,
      (r, ground (arith, get-remove s.turn_correlations k turn), l, t),
    )

expire_correlations-IsOwner :
    (now : ℕ) (thread turn : String) (s : AppServerEventState)
    → Owns thread turn s
    → Owns thread turn (expire_correlations now s)
unfolding expire_correlations
expire_correlations-IsOwner now thread turn s (d, (c, e, l, t)) =
    let out = get-keep_out (is_expired now) s.turn_correlations turn c d e (ground arith) in
    expire_each-IsOwner (keep (is_expired now) s.turn_correlations) thread turn s out
      (d, (c, e, l, t))

put-IsOwner :
    (thread turn key : String) (c : TurnCorrelation) (d : Dict TurnCorrelation)
    → str_eq key turn ≡ false
    → IsOwner thread turn d
    → IsOwner thread turn (put key c d)
put-IsOwner thread turn key c d n (k, (r, e, l, t)) =
    (keys_distinct-put key c d k, (r, ground (arith, get-put d key turn c), l, t))

-- A correlation of another turn, whether there is room for it or not.
correlate_turn-IsOwner :
    (now : ℕ) (thread turn other key : String) (s : AppServerEventState)
    → str_eq key turn ≡ false
    → Owns thread turn s
    → Owns thread turn (correlate_turn now other key s).1
unfolding correlate_turn
correlate_turn-IsOwner now thread turn other key s n o =
    let owned = expire_correlations-IsOwner now thread turn s o in
    let live = expire_correlations now s in
    let made : TurnCorrelation = record { thread = other; observed_at = now; live = true } in
    elim (Bool-cases (
      not (has live.turn_correlations key)
      && leb max_turn_correlations (length live.turn_correlations))) [
        | inl full ↦ simp full owned
        | inr free ↦ simp free (put-IsOwner thread turn key made live.turn_correlations n owned)
      ]

forget-correlations :
    (s : AppServerEventState) (turns : List String)
    → (forget_oldest s turns).turn_correlations ≡ s.turn_correlations
unfolding forget_oldest
forget-correlations s [] = refl
forget-correlations s (oldest ∷ turns) = refl

remember-correlations :
    (turn : String) (outcome : TurnOutcome) (s : AppServerEventState)
    → (remember_outcome turn outcome s).turn_correlations ≡ s.turn_correlations
unfolding remember_outcome
remember-correlations turn outcome s =
    let turns = s.completed_turns ++ (turn ∷ []) in
    let remembered : AppServerEventState = record s {
      turn_outcomes = put turn outcome s.turn_outcomes;
      completed_turns = turns;
    } in
    ground (arith, forget-correlations remembered turns)

record_started-IsOwner :
    (now : ℕ) (thread turn key : String) (of_thread : Option String) (s : AppServerEventState)
    → str_eq key turn ≡ false
    → Owns thread turn s
    → Owns thread turn (record_started now of_thread key s).1
unfolding record_started activate
record_started-IsOwner now thread turn key none s n o = o
record_started-IsOwner now thread turn key (some t) s n o =
    let started = record s { started_turns = put key tt s.started_turns } in
    let kept = correlate_turn-IsOwner now thread turn t key started n o in
    elim (Bool-cases (is_none (correlate_turn now t key started).0)) [
      | inl free ↦ simp free kept
      | inr full ↦ simp full kept
    ]

bind_started_turn-IsOwner :
    (now : ℕ) (thread turn other key : String) (s : AppServerEventState)
    → str_eq key turn ≡ false
    → Owns thread turn s
    → Owns thread turn (bind_started_turn now other key s).1.1
unfolding bind_started_turn activate
bind_started_turn-IsOwner now thread turn other key s n o =
    let correlated = correlate_turn now other key s in
    let same : (bind_started_turn now other key s).1.1.turn_correlations
        ≡ correlated.1.turn_correlations =
      ground arith in
    rw same (correlate_turn-IsOwner now thread turn other key s n o)

record_completed-IsOwner :
    (now : ℕ) (thread turn key : String) (of_thread : Option String) (outcome : TurnOutcome)
    (s : AppServerEventState)
    → str_eq key turn ≡ false
    → Owns thread turn s
    → Owns thread turn (record_completed now of_thread key outcome s)
unfolding record_completed close_correlation
record_completed-IsOwner now thread turn key of_thread outcome s n o =
    rw (remember-correlations key outcome _) (elim (Option-cases (get s.turn_correlations key)) [
      | inl e ↦ simp (close_correlation, e) o
      | inr (c, e) ↦
          simp (close_correlation, e)
            (put-IsOwner thread turn key
              (record { thread = c.thread; observed_at = now; live = false }) s.turn_correlations n
              o)
    ])

-- The call starts, ends or binds this turn.
abbrev pub concerns : String → Call → Bool
concerns turn (records now message) = elim (object_member message "params") [
  | none ↦ false
  | some params ↦ opt_eq (turn_id params) (some turn)
]
concerns turn (binds now thread key) = str_eq key turn
concerns turn (looks_up now key) = false
concerns turn (takes id) = false

call-IsOwner :
    (thread turn : String) (s : AppServerEventState) (c : Call)
    → concerns turn c ≡ false
    → Owns thread turn s
    → Owns thread turn (call s c)
unfolding call thread_for_turn take_response
call-IsOwner thread turn s (records now message) n o =
    message_cases (Owns thread turn) now s message (λ r. o) (λ m. o)
      (notice_cases (Owns thread turn) now s (string_member message "method")
        (object_member message "params") o
        (λ m key e f.
          record_started-IsOwner now thread turn key (thread_id m) s (ground (arith, e, f, n)) o)
        (λ m key e f g.
          record_completed-IsOwner now thread turn key (thread_id m) (read_outcome m) s
            (ground (arith, e, f, n)) o))
call-IsOwner thread turn s (binds now other key) n o =
    bind_started_turn-IsOwner now thread turn other key s n o
call-IsOwner thread turn s (looks_up now key) n o = expire_correlations-IsOwner now thread turn s o
call-IsOwner thread turn s (takes id) n o = o

calls-IsOwner :
    (thread turn : String) (s : AppServerEventState) (cs : List Call)
    → any (concerns turn) cs ≡ false
    → Owns thread turn s
    → Owns thread turn (calls s cs)
unfolding calls
calls-IsOwner thread turn s [] n o = o
calls-IsOwner thread turn s (c ∷ cs) n o =
    calls-IsOwner thread turn (call s c) cs (ground arith)
      (call-IsOwner thread turn s c (ground arith) o)

expire_each-distinct :
    (expired : Dict TurnCorrelation) (s : AppServerEventState)
    → keys_distinct s.turn_correlations ≡ true
    → keys_distinct (expire_each expired s).turn_correlations ≡ true
unfolding expire_each expire
expire_each-distinct [] s d = d
expire_each-distinct ((k, c) ∷ expired) s d =
    expire_each-distinct expired (expire k c s) (keys_distinct-remove k s.turn_correlations d)

correlated-IsOwner :
    (now : ℕ) (thread turn : String) (s : AppServerEventState)
    → keys_distinct s.turn_correlations ≡ true
    → (correlate_turn now thread turn s).0 ≡ none
    → Owns thread turn (correlate_turn now thread turn s).1
unfolding correlate_turn expire_correlations
correlated-IsOwner now thread turn s d h =
    let live = expire_correlations now s in
    let distinct = expire_each-distinct (keep (is_expired now) s.turn_correlations) s d in
    let made : TurnCorrelation = record { thread = thread; observed_at = now; live = true } in
    elim (Bool-cases (
      not (has live.turn_correlations turn)
      && leb max_turn_correlations (length live.turn_correlations))) [
        | inl full ↦ ground arith
        | inr free ↦ simp free (
          keys_distinct-put turn made live.turn_correlations distinct,
          (
            made,
            ground (arith, get-put live.turn_correlations turn turn made, eq_refl turn),
            refl,
            refl,
          ),
        )
      ]

-- Once a turn is correlated with its thread, it is found again at any later time, whatever other turns
-- start, end, are bound or looked up in between, also when the correlations are full: until a call
-- names the turn itself, its owner neither expires nor makes room for another.
pub live_owner_kept :
    (now later : ℕ) (thread turn : String) (s : AppServerEventState) (cs : List Call)
    → keys_distinct s.turn_correlations ≡ true
    → (correlate_turn now thread turn s).0 ≡ none
    → any (concerns turn) cs ≡ false
    → (thread_for_turn later turn (calls (correlate_turn now thread turn s).1 cs)).0 ≡ some thread
unfolding thread_for_turn
live_owner_kept now later thread turn s cs d h n =
    let owned =
      calls-IsOwner thread turn (correlate_turn now thread turn s).1 cs n
        (correlated-IsOwner now thread turn s d h) in
    let (k, (c, e, l, t)) =
      expire_correlations-IsOwner later thread turn (calls (correlate_turn now thread turn s).1 cs)
        owned in
    simp (thread_for_turn, e) (ap some t)
