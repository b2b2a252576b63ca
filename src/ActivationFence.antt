-- ===== src/ActivationFence.antt =====
-- The fence of scripts/activation_fence.py on the turn that asked for the activation. The records of a
-- rollout come as what `parse_rollout_event` makes of them; reading them and the cursor is not
-- modelled.
pub mod Batches
pub mod Capture
mod Tests
use codex_must_work.Prelude.{
  String, Bool, true, false, not, ◌&&◌, ◌||◌, Option, none, some, List, [], ◌∷◌, opt_eq, str_eq,
  is_none, if◌then◌else◌, Dict, put, remove, Result, ok, err,
}
use codex_must_work.Events.{EventKind, ObservedEvent, turn_started, turn_completed, turn_aborted}

pub data ActivationFenceStatus : Type 0 where
  pending completed aborted superseded : ActivationFenceStatus

abbrev pub is_pending : ActivationFenceStatus → Bool
is_pending s = elim s [ pending ↦ true | _ ↦ false ]

-- `event.kind is ...`
abbrev pub starts : ObservedEvent → Bool
starts e = elim e.kind [ turn_started ↦ true | _ ↦ false ]

abbrev pub completes : ObservedEvent → Bool
completes e = elim e.kind [ turn_completed ↦ true | _ ↦ false ]

abbrev pub aborts : ObservedEvent → Bool
aborts e = elim e.kind [ turn_aborted ↦ true | _ ↦ false ]

-- An event of the main thread; a record without an event is `none`.
abbrev pub main_event : Option ObservedEvent → Option ObservedEvent
main_event none = none
main_event (some e) = if is_none e.child_id then some e else none

-- What one event decides on the turn, `pending` where it decides nothing.
unfoldable pub decides : String → Option ObservedEvent → ActivationFenceStatus
decides turn none = pending
decides turn (some e) =
    if starts e && not (opt_eq e.turn_id (some turn))
    then superseded
    else if not (opt_eq e.turn_id (some turn))
    then pending
    else if completes e
    then completed
    else if aborts e
    then aborted
    else pending

-- The loop of `ActivationFence.poll` over one batch.
unfoldable pub poll : String → List (Option ObservedEvent) → ActivationFenceStatus
unfolding decides
poll turn [] = pending
poll turn (r ∷ records) =
    let rest = poll turn records in
    elim (decides turn (main_event r)) [ pending ↦ rest | status ↦ status ]

-- The loop of `capture_activation_fence`.
unfoldable pub open_turn : Dict (Unit {0}) → Option ObservedEvent → Dict (Unit {0})
unfolding put
open_turn open_turns none = open_turns
open_turn open_turns (some e) = elim e.turn_id [
  | none ↦ open_turns
  | some turn ↦
      if starts e
      then put turn tt open_turns
      else if completes e || aborts e
      then remove turn open_turns
      else open_turns
]

unfoldable pub all_open : Dict (Unit {0}) → List (Option ObservedEvent) → Dict (Unit {0})
unfolding open_turn
all_open open_turns [] = open_turns
all_open open_turns (r ∷ records) = all_open (open_turn open_turns (main_event r)) records

unfoldable pub sole_turn : Dict (Unit {0}) → Result String
sole_turn [] = err "activation_turn_not_observable"
sole_turn ((turn, u) ∷ []) = ok turn
sole_turn (_ ∷ _ ∷ _) = err "activation_turn_ambiguous"

unfoldable pub capture_activation_fence : List (Option ObservedEvent) → Result String
unfolding all_open sole_turn
capture_activation_fence records = sole_turn (all_open [] records)

-- The loop of `recover_activation_fence`: whether the turn was seen to start, and its status.
unfoldable pub recover_step :
    String → Bool × ActivationFenceStatus → Option ObservedEvent → Bool × ActivationFenceStatus
recover_step turn (seen, status) none = (seen, status)
recover_step turn (seen, status) (some e) =
    if starts e
    then (if opt_eq e.turn_id (some turn)
        then (true, pending)
        else if seen && is_pending status
        then (seen, superseded)
        else (seen, status))
    else if opt_eq e.turn_id (some turn) && completes e
    then (seen, completed)
    else if opt_eq e.turn_id (some turn) && aborts e
    then (seen, aborted)
    else (seen, status)

unfoldable pub recover_all :
    String
    → Bool × ActivationFenceStatus
    → List (Option ObservedEvent)
    → Bool × ActivationFenceStatus
unfolding recover_step
recover_all turn s [] = s
recover_all turn s (r ∷ records) = recover_all turn (recover_step turn s (main_event r)) records

unfoldable pub recover_activation_fence :
    String → List (Option ObservedEvent) → Result ActivationFenceStatus
unfolding recover_all
recover_activation_fence turn records =
    let (seen, status) = recover_all turn (false, pending) records in
    if not seen then err "activation_turn_not_observable" else ok status
