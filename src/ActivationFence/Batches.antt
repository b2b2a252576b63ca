-- ===== src/ActivationFence/Batches.antt =====
-- How the batches of a poll join.
use codex_must_work.Prelude.{◌≡◌, refl, String, Option, List, [], ◌∷◌, ◌++◌, arith}
use codex_must_work.Events.{ObservedEvent}
use codex_must_work.ActivationFence.{pending, poll}

-- The status does not depend on where the appended records are cut into batches: after a batch that
-- leaves the turn pending, the next poll says what one poll of both batches says; a batch that decides
-- keeps its answer whatever is appended.
poll-append :
    (turn : String) (batch next : List (Option ObservedEvent))
    → poll turn (batch ++ next)
      ≡ elim (poll turn batch) [ pending ↦ poll turn next | status ↦ status ]
unfolding poll
poll-append turn [] next = refl
poll-append turn (r ∷ batch) next = ground (arith, poll-append turn batch next)
