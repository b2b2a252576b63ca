-- ===== src/ActivationFence/Tests.antt =====
-- A rollout with a finished and an open turn, and the theorems at concrete inputs.
use codex_must_work.Prelude.{
  ◌≡◌, ◌⊎◌, refl, String, true, false, Option, none, some, List, [], ◌∷◌, arith, eq_iff, ok, err,
}
use codex_must_work.Events.{ObservedEvent, EventKind, turn_started, turn_completed}
use codex_must_work.ActivationFence.{
  ActivationFenceStatus, capture_activation_fence, recover_activation_fence,
}
use codex_must_work.ActivationFence.Capture.{unfinished, capture-recover}

abbrev event : EventKind → String → Option ObservedEvent
event kind turn = some (record {
  kind = kind;
  occurred_at = 0;
  turn_id = some turn;
  item_id = none;
  child_id = none;
  call_id = none;
  terminal = false;
  fallback_tool_result = false;
})

abbrev records : List (Option ObservedEvent)
records = event turn_started "a" ∷ event turn_completed "a" ∷ none ∷ event turn_started "b" ∷ []

abbrev next : List (Option ObservedEvent)
next = event turn_completed "b" ∷ []

captured : capture_activation_fence records ≡ ok "b"
unfolding capture_activation_fence
captured = refl

capture-recover_example :
    ((status : ActivationFenceStatus) × (recover_activation_fence "b" records ≡ ok status)
      × (unfinished status ≡ true))
    × ((recover_activation_fence "a" records ≡ err "activation_turn_not_observable")
        ⊎ ((status : ActivationFenceStatus) × (recover_activation_fence "a" records ≡ ok status)
            × (unfinished status ≡ false)))
capture-recover_example = capture-recover records "b" "a" captured (ground (arith, eq_iff "a" "b"))
