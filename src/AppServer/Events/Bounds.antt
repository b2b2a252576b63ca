-- ===== src/AppServer/Events/Bounds.antt =====
-- What a connection retains: its outcomes and its correlations are bounded.
use codex_must_work.Prelude.{
  length-remove-has, has-put, has-remove, length-put, ℕ, suc, ◌≤◌, ◌≡◌, refl, String, true, Option,
  List, [], ◌∷◌, ◌++◌, ltb, length, length-append, eq_iff, eq_refl, arith, put, has, Bool-cases,
  inl, inr,
}
use codex_must_work.Manager.Outcomes.{TurnOutcome}
use codex_must_work.AppServer.{Members, string_member, object_member, thread_id, read_outcome}
use codex_must_work.AppServer.Events.Cases.{message_cases, notice_cases}
use codex_must_work.AppServer.Events.{
  AppServerEventState, init, max_retained_turn_outcomes, max_turn_correlations, thread_for_turn,
  forget_oldest, remember_outcome, record_completed, record_message, bind_started_turn,
  take_response,
}
use codex_must_work.AppServer.Events.Retention.{
  IsBounded, contains, no_repeats, contains-append, no_repeats-append, IsKept-IsBounded,
  expire_correlations-IsKept, record_started-IsKept, bind_started_turn-IsKept,
  close_correlation-length,
}

forget-IsBounded :
    (oldest : String) (turns : List String) (s : AppServerEventState)
    → length turns ≤ max_retained_turn_outcomes
    → no_repeats (oldest ∷ turns) ≡ true
    → ((turn : String) → has s.turn_outcomes turn ≡ contains turn (oldest ∷ turns))
    → length s.turn_outcomes ≤ suc (length turns)
    → length s.turn_correlations ≤ max_turn_correlations
    → IsBounded (forget_oldest s (oldest ∷ turns))
unfolding forget_oldest
forget-IsBounded oldest turns s l d a o k = record {
  completed = l;
  distinct = ground arith;
  agree =
      λ turn. ground (arith, a turn, has-remove s.turn_outcomes oldest turn, eq_iff oldest turn);
  outcomes = ground (arith, a oldest, eq_refl oldest, length-remove-has oldest s.turn_outcomes);
  correlated = k;
}

forget_list-IsBounded :
    (turns : List String) (s : AppServerEventState)
    → length turns ≤ suc max_retained_turn_outcomes
    → ltb max_retained_turn_outcomes (length turns) ≡ true
    → no_repeats turns ≡ true
    → ((turn : String) → has s.turn_outcomes turn ≡ contains turn turns)
    → length s.turn_outcomes ≤ length turns
    → length s.turn_correlations ≤ max_turn_correlations
    → IsBounded (forget_oldest s turns)
forget_list-IsBounded [] s l f d a o k = cc
forget_list-IsBounded (oldest ∷ turns) s l f d a o k =
    forget-IsBounded oldest turns s (omega (arith, l)) d a o k

remember-IsBounded :
    (turn : String) (outcome : TurnOutcome) (s : AppServerEventState)
    → IsBounded s
    → IsBounded (remember_outcome turn outcome s)
unfolding remember_outcome
remember-IsBounded turn outcome s b = elim (Bool-cases (has s.turn_outcomes turn)) [
  | inl old ↦ simp old b
  | inr new ↦ simp new (
      let turns = s.completed_turns ++ (turn ∷ []) in
      let remembered : AppServerEventState = record s {
        turn_outcomes = put turn outcome s.turn_outcomes;
        completed_turns = turns;
      } in
      let longer = length-append s.completed_turns (turn ∷ []) in
      let distinct =
        no_repeats-append turn s.completed_turns b.distinct (ground (arith, b.agree turn)) in
      let agree : (t : String) → has remembered.turn_outcomes t ≡ contains t turns = λ t. ground (
        arith,
        b.agree t,
        has-put s.turn_outcomes turn t outcome,
        contains-append t turn s.completed_turns,
      ) in
      let more : length remembered.turn_outcomes ≤ length turns =
        omega (arith, length-put turn outcome s.turn_outcomes, b.outcomes) in
      elim (Bool-cases (ltb max_retained_turn_outcomes (length turns))) [
        | inr fits ↦ simp fits (record {
          completed = ground arith;
          distinct = distinct;
          agree = agree;
          outcomes = more;
          correlated = b.correlated;
        })
        | inl full ↦ simp full (
            forget_list-IsBounded turns remembered (omega (arith, b.completed)) full distinct agree
              more b.correlated)
      ])
]

record_completed-IsBounded :
    (now : ℕ) (thread : Option String) (turn : String) (outcome : TurnOutcome)
    (s : AppServerEventState)
    → IsBounded s
    → IsBounded (record_completed now thread turn outcome s)
unfolding record_completed
record_completed-IsBounded now thread turn outcome s b =
    let shorter = close_correlation-length now turn s.turn_correlations in
    remember-IsBounded turn outcome _
      (IsKept-IsBounded s _ b (refl, refl, omega (arith, b.correlated)))

record_message-IsBounded :
    (now : ℕ) (message : Members) (s : AppServerEventState)
    → IsBounded s
    → IsBounded (record_message now message s).1
record_message-IsBounded now message s b =
    message_cases IsBounded now s message (λ r. IsKept-IsBounded s _ b (refl, refl, b.correlated))
      (λ m. IsKept-IsBounded s _ b (refl, refl, b.correlated))
      (notice_cases IsBounded now s (string_member message "method")
        (object_member message "params") b
        (λ m turn e f.
          IsKept-IsBounded s _ b (record_started-IsKept now (thread_id m) turn s b.correlated))
        (λ m turn e f g. record_completed-IsBounded now (thread_id m) turn (read_outcome m) s b))

-- The calls on a connection.
pub data Call : Type 0 where
  records : ℕ → Members → Call
  binds : ℕ → String → String → Call
  looks_up : ℕ → String → Call
  takes : String → Call

unfoldable pub call : AppServerEventState → Call → AppServerEventState
call s (records now message) = (record_message now message s).1
call s (binds now thread turn) = (bind_started_turn now thread turn s).1.1
call s (looks_up now turn) = (thread_for_turn now turn s).1
call s (takes id) = (take_response id s).1

unfoldable pub calls : AppServerEventState → List Call → AppServerEventState
calls s [] = s
calls s (c ∷ cs) = calls (call s c) cs

call-IsBounded : (s : AppServerEventState) (c : Call) → IsBounded s → IsBounded (call s c)
unfolding call thread_for_turn take_response
call-IsBounded s (records now message) b = record_message-IsBounded now message s b
call-IsBounded s (binds now thread turn) b =
    IsKept-IsBounded s _ b (bind_started_turn-IsKept now thread turn s b.correlated)
call-IsBounded s (looks_up now turn) b =
    IsKept-IsBounded s _ b (expire_correlations-IsKept now s b.correlated)
call-IsBounded s (takes id) b = IsKept-IsBounded s _ b (refl, refl, b.correlated)

calls-IsBounded : (s : AppServerEventState) (cs : List Call) → IsBounded s → IsBounded (calls s cs)
unfolding calls
calls-IsBounded s [] b = b
calls-IsBounded s (c ∷ cs) b = calls-IsBounded (call s c) cs (call-IsBounded s c b)

-- Whatever messages a connection receives and whatever is asked of it, it retains at most 512
-- completed turns, each once, with an outcome for exactly these, and at most 2048 correlations.
pub calls-init-IsBounded : (cs : List Call) → IsBounded (calls init cs)
unfolding has
calls-init-IsBounded cs = calls-IsBounded init cs (record {
  completed = omega arith;
  distinct = refl;
  agree = λ turn. refl;
  outcomes = omega arith;
  correlated = omega arith;
})
