-- ===== src/Manager/Outcomes/Resolution.antt =====
-- How a tick goes on after the owned turn has ended.
use codex_must_work.Prelude.{
  subst, ◌>>=◌, if◌then◌else◌, Bool-cases, ℕ, ◌≡◌, ◌⊎◌, inl, inr, refl, String, true, false, none,
  some, opt_eq, Result, ok, err,
}
use codex_must_work.Manager.{Option, Bool, Values}
use codex_must_work.Manager.Ownership.{
  bump_revision, finish_turn, record_turn_finished, record_restart_performed, claim_is_current,
  requests_turn,
}
use codex_must_work.Manager.Outcomes.{
  str_eq, not, TurnOutcome, completed, interrupted, failed, in_progress, invalid, GoalStatus,
  active, paused, blocked, usage_limited, budget_limited, complete, GoalOutcomeGuard,
  TurnResolution, Session, mutate, complete_session, disable_session, resolved,
  classify_interrupt_claim, resolve_completed, resolve_interrupted, resolve_turn_outcome, loaded,
  InterruptClaimState, matched, unclaimed, expired, mismatch, by_status, by_claim, complete_goal,
  continue_active_goal, finish_and_go_on,
}

-- The three ways a tick ends: it failed with a reason, stops, and has changed nothing; it goes on with
-- the turn given up and a handoff requested; or it stops without a failure and the session is disabled.
abbrev pub Settled : Session → TurnResolution × Session → Type 0
Settled s (r, s') =
    ((reason : String) × (r.failure_reason ≡ some reason) × (r.keep_running ≡ false) × (s' ≡ s))
    ⊎ (((w : Values) × (s'.file ≡ some w)
          × (r.failure_reason ≡ none)
          × (r.keep_running ≡ true)
          × (w.managed_turn_id ≡ none)
          × (w.handoff_requested ≡ true))
        ⊎ ((r.failure_reason ≡ none) × (r.keep_running ≡ false) × (s'.file ≡ none)))

-- A result that is settled if it is one.
abbrev IsSettled : Session → Result (TurnResolution × Session) → Type 0
IsSettled s (ok p) = Settled s p
IsSettled s (err reason) = Unit {0}

finish_and_go_on-IsSettled :
    (turn : String) (v : Values) (n : ℕ)
    → IsSettled (loaded v n) (finish_and_go_on turn (loaded v n))
unfolding finish_and_go_on record_turn_finished mutate finish_turn bump_revision
finish_and_go_on-IsSettled turn v n = elim (Bool-cases (opt_eq v.managed_turn_id (some turn))) [
  | inl own ↦ simp own (inr (inl (_, refl, refl, refl, refl, refl)))
  | inr other ↦ simp other tt
]

complete_goal-IsSettled :
    (turn : String) (v : Values) (n : ℕ) → IsSettled (loaded v n) (complete_goal turn (loaded v n))
unfolding complete_goal complete_session disable_session record_turn_finished mutate finish_turn
    bump_revision
complete_goal-IsSettled turn v n = elim (Bool-cases (opt_eq v.managed_turn_id (some turn))) [
  | inl own ↦ simp own (inr (inr (refl, refl, refl)))
  | inr other ↦ simp other tt
]

matched-IsSettled :
    (v w : Values) (turn : String) (now n : ℕ)
    → IsSettled (loaded v n) (by_claim matched w turn now (loaded v n))
unfolding by_claim record_restart_performed mutate finish_turn bump_revision
matched-IsSettled v w turn now n = elim (Bool-cases (requests_turn turn v.restart_request)) [
  | inr e ↦ simp e tt
  | inl e ↦ simp e (elim (Bool-cases (opt_eq v.managed_turn_id (some turn))) [
    | inr f ↦ simp f tt
    | inl f ↦ simp f (elim (Bool-cases v.restart_claimed) [
      | inr g ↦ simp g tt
      | inl g ↦ simp g (elim (Bool-cases (claim_is_current v.restart_claimed_at now)) [
        | inr h ↦ simp h tt
        | inl h ↦ simp h (inr (inl (_, refl, refl, refl, refl, refl)))
      ])
    ])
  ])
]

complete_session-IsSettled :
    (v : Values) (n : ℕ) (interrupt : Bool)
    → Settled (loaded v n) (
      resolved false false none,
      if interrupt then disable_session (loaded v n) else complete_session (loaded v n),
    )
unfolding complete_session disable_session
complete_session-IsSettled v n true = inr (inr (refl, refl, refl))
complete_session-IsSettled v n false = inr (inr (refl, refl, refl))

continue_active_goal-IsSettled :
    (guard : GoalOutcomeGuard) (turn : String) (v : Values) (n : ℕ)
    → IsSettled (loaded v n) (continue_active_goal guard turn (loaded v n))
unfolding continue_active_goal finish_and_go_on
continue_active_goal-IsSettled guard turn v n =
    elim guard.pause_for_interrupt
      as (λ answer. IsSettled (loaded v n) (elim answer [
        | ok done ↦ finish_and_go_on turn (loaded v n)
        | err reason ↦
            if not (str_eq reason "goal_complete")
            then err reason
            else complete_goal turn (loaded v n)
      ])) [
        | ok done ↦ finish_and_go_on-IsSettled turn v n
        | err reason ↦ elim (Bool-cases (str_eq reason "goal_complete")) [
          | inl e ↦ simp e (complete_goal-IsSettled turn v n)
          | inr e ↦ simp e tt
        ]
      ]

by_status-IsSettled :
    (status : GoalStatus) (guard : GoalOutcomeGuard) (turn : String) (v : Values) (n : ℕ)
    → IsSettled (loaded v n) (by_status status guard turn (loaded v n))
unfolding by_status
by_status-IsSettled active guard turn v n = continue_active_goal-IsSettled guard turn v n
by_status-IsSettled paused guard turn v n = finish_and_go_on-IsSettled turn v n
by_status-IsSettled complete guard turn v n = complete_goal-IsSettled turn v n
by_status-IsSettled blocked guard turn v n = inl (_, refl, refl, refl)
by_status-IsSettled usage_limited guard turn v n = inl (_, refl, refl, refl)
by_status-IsSettled budget_limited guard turn v n = inl (_, refl, refl, refl)

by_claim-IsSettled :
    (claim : InterruptClaimState) (v : Values) (turn : String) (now n : ℕ)
    → IsSettled (loaded v n) (by_claim claim v turn now (loaded v n))
unfolding by_claim disable_session
by_claim-IsSettled matched v turn now n = matched-IsSettled v v turn now n
by_claim-IsSettled expired v turn now n = inl (_, refl, refl, refl)
by_claim-IsSettled mismatch v turn now n = inl (_, refl, refl, refl)
by_claim-IsSettled unclaimed v turn now n = elim (Bool-cases v.goal_companion) [
  | inl e ↦ simp e (inl (_, refl, refl, refl))
  | inr e ↦ simp e (elim (Bool-cases v.shutdown_requested) [
    | inl f ↦ simp f (inr (inr (refl, refl, refl)))
    | inr f ↦ simp f (finish_and_go_on-IsSettled turn v n)
  ])
]

guarded-IsSettled :
    (v : Values) (guard : Option GoalOutcomeGuard) (turn : String) (n : ℕ)
    → IsSettled (loaded v n) (elim guard [
      | none ↦ ok (resolved false false (some "goal_identity_missing"), loaded v n)
      | some g ↦ (do status ← g.status_after_turn; by_status status g turn (loaded v n))
    ])
guarded-IsSettled v none turn n = inl (_, refl, refl, refl)
guarded-IsSettled v (some g) turn n =
    elim g.status_after_turn
      as (λ answer.
        IsSettled (loaded v n) (do status ← answer; by_status status g turn (loaded v n))) [
          | ok status ↦ by_status-IsSettled status g turn v n
          | err reason ↦ tt
        ]

resolve_completed-IsSettled :
    (v : Values) (guard : Option GoalOutcomeGuard) (turn : String) (n : ℕ)
    → IsSettled (loaded v n) (resolve_completed v guard turn (loaded v n))
unfolding resolve_completed
resolve_completed-IsSettled v guard turn n = elim (Bool-cases v.goal_companion) [
  | inr e ↦ simp e (finish_and_go_on-IsSettled turn v n)
  | inl e ↦ simp e (guarded-IsSettled v guard turn n)
]

resolve_turn_outcome-IsSettled :
    (v : Values) (guard : Option GoalOutcomeGuard) (turn : String) (outcome : TurnOutcome)
    (now n : ℕ)
    → IsSettled (loaded v n) (resolve_turn_outcome v guard turn outcome now (loaded v n))
unfolding resolve_turn_outcome resolve_interrupted
resolve_turn_outcome-IsSettled v guard turn completed now n =
    elim (Bool-cases v.shutdown_requested) [
      | inl e ↦ simp e (complete_session-IsSettled v n v.shutdown_interrupt)
      | inr e ↦ simp e (resolve_completed-IsSettled v guard turn n)
    ]
resolve_turn_outcome-IsSettled v guard turn interrupted now n =
    by_claim-IsSettled (classify_interrupt_claim v turn now) v turn now n
resolve_turn_outcome-IsSettled v guard turn failed now n = inl (_, refl, refl, refl)
resolve_turn_outcome-IsSettled v guard turn in_progress now n = inl (_, refl, refl, refl)
resolve_turn_outcome-IsSettled v guard turn invalid now n = inl (_, refl, refl, refl)

-- Whatever the outcome of the turn, a tick that returns a resolution ends in one of three ways: with a
-- failure reason, not going on, and the session as it was; going on, with no turn owned and a handoff
-- requested; or not going on, without a failure, and the session disabled.
pub resolution-Settled :
    (v : Values) (guard : Option GoalOutcomeGuard) (turn : String) (outcome : TurnOutcome)
    (now n : ℕ) (p : TurnResolution × Session)
    → resolve_turn_outcome v guard turn outcome now (loaded v n) ≡ ok p
    → Settled (loaded v n) p
resolution-Settled v guard turn outcome now n p e =
    subst (IsSettled (loaded v n)) e (resolve_turn_outcome-IsSettled v guard turn outcome now n)
