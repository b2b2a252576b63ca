-- ===== src/ActivationFence/Capture.antt =====
-- A captured fence and its recovery.
use codex_must_work.Prelude.{
  refl, eq_refl, ◌≢◌, ◌⊎◌, sym, ◌∙◌, str_eq, Bool-cases, Option-cases, inl, inr, ◌≡◌, String, Bool,
  true, false, not, ◌&&◌, Option, none, some, arith, is_none, Dict, get, get-put, get-remove,
  eq_iff,
}
use codex_must_work.Events.{ObservedEvent}
use codex_must_work.ActivationFence.{
  main_event, err, [], ◌∷◌, List, ok, recover_all, all_open, capture_activation_fence,
  recover_activation_fence, sole_turn, ActivationFenceStatus, pending, superseded, open_turn,
  recover_step,
}

abbrev pub unfinished : ActivationFenceStatus → Bool
unfinished s = elim s [ pending ↦ true | superseded ↦ true | _ ↦ false ]

abbrev Agrees : String → Dict (Unit {0}) → Bool × ActivationFenceStatus → Type 0
Agrees turn open_turns (seen, status) =
    is_none (get open_turns turn) ≡ not (seen && unfinished status)

step-Agrees :
    (turn : String) (open_turns : Dict (Unit {0})) (s : Bool × ActivationFenceStatus)
    (e : Option ObservedEvent)
    → Agrees turn open_turns s
    → Agrees turn (open_turn open_turns e) (recover_step turn s e)
unfolding open_turn recover_step
step-Agrees turn open_turns s none h = h
step-Agrees turn open_turns (seen, status) (some e) h = elim (Option-cases e.turn_id) [
  | inl n ↦ ground (arith, n)
  | inr (k, n) ↦
      ground (arith, n, get-put open_turns k turn tt, get-remove open_turns k turn, eq_iff k turn)
]

all-Agrees :
    (turn : String) (open_turns : Dict (Unit {0})) (s : Bool × ActivationFenceStatus)
    (records : List (Option ObservedEvent))
    → Agrees turn open_turns s
    → Agrees turn (all_open open_turns records) (recover_all turn s records)
unfolding all_open recover_all
all-Agrees turn open_turns s [] h = h
all-Agrees turn open_turns s (r ∷ records) h =
    all-Agrees turn (open_turn open_turns (main_event r)) (recover_step turn s (main_event r))
      records (step-Agrees turn open_turns s (main_event r) h)

sole-get :
    (open_turns : Dict (Unit {0})) (turn other : String)
    → sole_turn open_turns ≡ ok turn
    → is_none (get open_turns other) ≡ not (str_eq turn other)
unfolding sole_turn get
sole-get [] turn other h = cc
sole-get ((k, u) ∷ []) turn other h = ground arith
sole-get (a ∷ b ∷ d) turn other h = cc

recovered :
    (records : List (Option ObservedEvent)) (turn other : String)
    → capture_activation_fence records ≡ ok turn
    → not (str_eq turn other)
      ≡ not (
          (recover_all other (false, pending) records).0
          && unfinished (recover_all other (false, pending) records).1)
unfolding capture_activation_fence get
recovered records turn other h =
    sym (sole-get (all_open [] records) turn other h)
    ∙ all-Agrees other [] (false, pending) records refl

-- The turn that a capture takes for the activation is found again by a recovery from the same records,
-- as pending or superseded; a recovery of any other turn raises, or finds it completed or aborted.
pub capture-recover :
    (records : List (Option ObservedEvent)) (turn other : String)
    → capture_activation_fence records ≡ ok turn
    → other ≢ turn
    → ((status : ActivationFenceStatus) × (recover_activation_fence turn records ≡ ok status)
        × (unfinished status ≡ true))
      × ((recover_activation_fence other records ≡ err "activation_turn_not_observable")
          ⊎ ((status : ActivationFenceStatus) × (recover_activation_fence other records ≡ ok status)
              × (unfinished status ≡ false)))
unfolding recover_activation_fence
capture-recover records turn other h n =
    let own = recovered records turn turn h in
    let others = recovered records turn other h in
    (
      (
        (recover_all turn (false, pending) records).1,
        ground (arith, own, eq_refl turn),
        ground (arith, own, eq_refl turn),
      ),
      elim (Bool-cases (recover_all other (false, pending) records).0) [
        | inr f ↦ inl (simp f refl)
        | inl f ↦ inr (
          (recover_all other (false, pending) records).1,
          simp f refl,
          ground (arith, f, others, eq_iff turn other),
        )
      ],
    )
