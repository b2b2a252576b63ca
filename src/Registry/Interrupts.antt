-- ===== src/Registry/Interrupts.antt =====
-- `_interrupt_once` of scripts/daemon_registry.py and `_claim_interrupt_attempt`: at most one thread at a
-- time asks the app server to interrupt a turn, and nobody asks again soon after it was asked. The call
-- lets go of the lock for the request, so its steps under the lock are definitions of their own: a
-- thread enters (and waits for another's attempt and enters again), finishes its attempt and leaves.
use codex_must_work.Prelude.{
  ℕ, ◌+◌, String, Bool, Option, none, some, get, put, remove, has, keep, not, ltb, leb, length,
  ◌==◌, if◌then◌else◌,
}
use codex_must_work.Registry.{DaemonTask, DaemonRegistry, correlation_expiry, max_turn_correlations}
use codex_must_work.Registry.Owners.{refresh_turn_owners}

-- The interrupts that are not forgotten at the time `now`.
abbrev pub unexpired : ℕ → String × ℕ → Bool
unexpired now (turn, interrupted_at) = not (ltb (interrupted_at + correlation_expiry) now)

-- What a thread that enters is told: the owner of the turn, that the turn was interrupted, the event of
-- the attempt to wait for, or the event of its own attempt.
pub data Entry : Type 0 where
  owned : Option DaemonTask → Entry
  interrupted_before : Entry
  waits_for claims : ℕ → Entry
  raises : String → Entry

-- `_claim_interrupt_attempt`
unfoldable pub claim_interrupt_attempt : ℕ → String → DaemonRegistry → Entry × DaemonRegistry
unfolding get put has
claim_interrupt_attempt now turn r =
    let live = record r { interrupted_turns = keep (unexpired now) r.interrupted_turns } in
    let claimed = record live {
      interrupt_attempts = put turn r.next_event r.interrupt_attempts;
      next_event = r.next_event + 1;
    } in
    if has live.interrupted_turns turn
    then (interrupted_before, live)
    else elim (get r.interrupt_attempts turn) [
      | some event ↦ (waits_for event, live)
      | none ↦
          if leb max_turn_correlations
            (length live.interrupted_turns + length live.interrupt_attempts)
          then (raises "app_server_correlation_capacity", live)
          else (claims r.next_event, claimed)
    ]

unfoldable pub enter_refreshed :
    ℕ → String → Option String × DaemonRegistry → Entry × DaemonRegistry
unfolding get claim_interrupt_attempt
enter_refreshed now turn (some reason, r) = (raises reason, r)
enter_refreshed now turn (none, r) = elim (get r.turn_owners turn) [
  | some owner ↦ (owned owner, r)
  | none ↦ claim_interrupt_attempt now turn r
]

-- One round of the loop of `_interrupt_once`.
unfoldable pub enter_interrupt : ℕ → String → DaemonRegistry → Entry × DaemonRegistry
unfolding enter_refreshed refresh_turn_owners
enter_interrupt now turn r = enter_refreshed now turn (refresh_turn_owners r)

-- The `finally` of `_interrupt_once`, for the attempt with this event.
unfoldable pub finish_interrupt : ℕ → String → ℕ → Bool → DaemonRegistry → DaemonRegistry
unfolding get put remove
finish_interrupt now turn event succeeded r = elim (get r.interrupt_attempts turn) [
  | none ↦ r
  | some current ↦
      if current == event
      then record r {
        interrupted_turns =
            if succeeded then put turn now r.interrupted_turns else r.interrupted_turns;
        interrupt_attempts = remove turn r.interrupt_attempts;
      }
      else r
]

-- What `_interrupt_once` returns after its request, with what it raises.
unfoldable pub leave_interrupt :
    String → DaemonRegistry → Option String × Option DaemonTask × DaemonRegistry
unfolding get refresh_turn_owners
leave_interrupt turn r =
    let (failure, refreshed) = refresh_turn_owners r in
    let owner : Option DaemonTask = elim (get refreshed.turn_owners turn) [
      | none ↦ none
      | some o ↦ o
    ] in
    (failure, owner, refreshed)
