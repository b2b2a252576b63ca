-- ===== src/Registry/Expiry.antt =====
-- How soon scripts/daemon_registry.py asks again for an interrupt that was made.
use codex_must_work.Prelude.{
  ℕ, ◌+◌, ◌≤◌, ◌≡◌, refl, sym, subst, ap, String, Bool, true, false, Option, none, some, List, [],
  ◌∷◌, Dict, get, has, keep, get-put, get-remove, get-keep_in, leb, eq_iff, eq_refl, str_eq, arith,
  Option-cases, Bool-cases, inl, inr, all,
}
use codex_must_work.Registry.{DaemonRegistry, publish, discard_index, detach, correlation_expiry}
use codex_must_work.Registry.Owners.{refresh_turn_owners}
use codex_must_work.Registry.Routing.{selected_locked}
use codex_must_work.Registry.Interrupts.{
  unexpired, claim_interrupt_attempt, enter_refreshed, enter_interrupt, finish_interrupt,
  leave_interrupt,
}
use codex_must_work.Registry.Memory.{
  memory, memory-refresh_turn_owners, memory-discard_index, memory-detach, memory-selected_locked,
}
use codex_must_work.Registry.Histories.{
  Step, publishes, discards, detaches, detaches_all, selects, enters, finishes, leaves, writes,
  step, steps,
}
use codex_must_work.Registry.Once.{is_claim}

-- The turn was interrupted at this time, and nobody is asking for it.
abbrev pub IsInterrupted : String → ℕ → DaemonRegistry → Type 0
IsInterrupted turn at r =
    (get r.interrupted_turns turn ≡ some at) × (get r.interrupt_attempts turn ≡ none)

-- No thread enters later than this, and the daemon does not shut down.
abbrev pub is_before : ℕ → Step → Bool
is_before until (enters now turn) = leb now until
is_before until detaches_all = false
is_before until _ = true

memory-IsInterrupted :
    (turn : String) (at : ℕ) (r s : DaemonRegistry)
    → memory s ≡ memory r
    → IsInterrupted turn at r
    → IsInterrupted turn at s
memory-IsInterrupted turn at r s e i =
    subst (λ (m : Dict ℕ × Dict ℕ × ℕ). (get m.0 turn ≡ some at) × (get m.1 turn ≡ none)) (sym e) i

still_kept :
    (now at : ℕ) (turn : String) (r : DaemonRegistry)
    → now ≤ at + correlation_expiry
    → IsInterrupted turn at r
    → get (keep (unexpired now) r.interrupted_turns) turn ≡ some at
still_kept now at turn r soon i =
    get-keep_in (unexpired now) r.interrupted_turns turn at i.0 (ground arith)

claim_interrupt_attempt-IsInterrupted :
    (now : ℕ) (t turn : String) (at : ℕ) (r : DaemonRegistry)
    → now ≤ at + correlation_expiry
    → IsInterrupted turn at r
    → IsInterrupted turn at (claim_interrupt_attempt now t r).1
unfolding claim_interrupt_attempt has
claim_interrupt_attempt-IsInterrupted now t turn at r soon i =
    let kept = still_kept now at turn r soon i in
    ground (arith, i, kept, eq_iff t turn, get-put r.interrupt_attempts t turn r.next_event)

enter_refreshed-IsInterrupted :
    (now : ℕ) (t turn : String) (at : ℕ) (o : Option String × DaemonRegistry)
    → now ≤ at + correlation_expiry
    → IsInterrupted turn at o.1
    → IsInterrupted turn at (enter_refreshed now t o).1
unfolding enter_refreshed
enter_refreshed-IsInterrupted now t turn at (some reason, r) soon i = i
enter_refreshed-IsInterrupted now t turn at (none, r) soon i =
    elim (Option-cases (get r.turn_owners t)) [
      | inl e ↦
          simp (enter_refreshed, e) (claim_interrupt_attempt-IsInterrupted now t turn at r soon i)
      | inr (owner, e) ↦ simp (enter_refreshed, e) i
    ]

finish_interrupt-IsInterrupted :
    (now : ℕ) (t : String) (event : ℕ) (succeeded : Bool) (turn : String) (at : ℕ)
    (r : DaemonRegistry)
    → IsInterrupted turn at r
    → IsInterrupted turn at (finish_interrupt now t event succeeded r)
unfolding finish_interrupt
finish_interrupt-IsInterrupted now t event succeeded turn at r i =
    elim (Bool-cases (str_eq t turn)) [
      | inl same ↦
          let here : get r.interrupt_attempts t ≡ none =
            rw (ap (get r.interrupt_attempts) ((eq_iff t turn).0 same)) i.1 in
          simp (finish_interrupt, here) i
      | inr other ↦ ground (
        arith,
        i,
        other,
        get-put r.interrupted_turns t turn now,
        get-remove r.interrupt_attempts t turn,
      )
    ]

step-IsInterrupted :
    (turn : String) (at : ℕ) (r : DaemonRegistry) (s : Step)
    → is_before (at + correlation_expiry) s ≡ true
    → IsInterrupted turn at r
    → IsInterrupted turn at (step r s)
unfolding step publish
step-IsInterrupted turn at r (publishes task) b i = i
step-IsInterrupted turn at r (discards task) b i =
    memory-IsInterrupted turn at r (discard_index task r) (memory-discard_index task r) i
step-IsInterrupted turn at r (detaches tasks) b i =
    memory-IsInterrupted turn at r (detach tasks r).2 (memory-detach tasks r) i
step-IsInterrupted turn at r detaches_all b i = ground arith
step-IsInterrupted turn at r (selects activity reading) b i =
    memory-IsInterrupted turn at r (selected_locked activity reading r).1
      (memory-selected_locked activity reading r) i
step-IsInterrupted turn at r (enters now t) b i =
    unfold enter_interrupt in
    enter_refreshed-IsInterrupted now t turn at (refresh_turn_owners r) (ground arith)
      (memory-IsInterrupted turn at r (refresh_turn_owners r).1 (memory-refresh_turn_owners r) i)
step-IsInterrupted turn at r (finishes now t event succeeded) b i =
    finish_interrupt-IsInterrupted now t event succeeded turn at r i
step-IsInterrupted turn at r (leaves t) b i =
    unfold leave_interrupt in
    memory-IsInterrupted turn at r (refresh_turn_owners r).1 (memory-refresh_turn_owners r) i
step-IsInterrupted turn at r (writes files) b i = i

steps-IsInterrupted :
    (turn : String) (at : ℕ) (r : DaemonRegistry) (ss : List Step)
    → all (is_before (at + correlation_expiry)) ss ≡ true
    → IsInterrupted turn at r
    → IsInterrupted turn at (steps r ss)
unfolding steps
steps-IsInterrupted turn at r [] b i = i
steps-IsInterrupted turn at r (s ∷ ss) b i =
    steps-IsInterrupted turn at (step r s) ss (ground arith)
      (step-IsInterrupted turn at r s (ground arith) i)

finished-IsInterrupted :
    (at : ℕ) (turn : String) (event : ℕ) (r : DaemonRegistry)
    → get r.interrupt_attempts turn ≡ some event
    → IsInterrupted turn at (finish_interrupt at turn event true r)
unfolding finish_interrupt
finished-IsInterrupted at turn event r e =
    simp (finish_interrupt, e)
      (ground (
        arith,
        eq_refl turn,
        get-put r.interrupted_turns turn turn at,
        get-remove r.interrupt_attempts turn turn,
      ))

interrupted-refused :
    (now at : ℕ) (turn : String) (o : Option String × DaemonRegistry)
    → now ≤ at + correlation_expiry
    → IsInterrupted turn at o.1
    → is_claim (enter_refreshed now turn o).0 ≡ false
unfolding enter_refreshed claim_interrupt_attempt has
interrupted-refused now at turn (some reason, r) soon i = refl
interrupted-refused now at turn (none, r) soon i =
    let kept = still_kept now at turn r soon i in ground (arith, kept)

-- After an interrupt that succeeded, nobody asks for the same turn for ten minutes: until the daemon
-- shuts down or ten minutes are over, and whatever other threads do in between, a thread that enters for
-- the turn claims no attempt.
pub not_asked_again :
    (at later : ℕ) (turn : String) (event : ℕ) (r : DaemonRegistry) (ss : List Step)
    → get r.interrupt_attempts turn ≡ some event
    → all (is_before (at + correlation_expiry)) ss ≡ true
    → later ≤ at + correlation_expiry
    → is_claim (enter_interrupt later turn (steps (finish_interrupt at turn event true r) ss)).0
      ≡ false
unfolding enter_interrupt
not_asked_again at later turn event r ss e b soon =
    let after = steps (finish_interrupt at turn event true r) ss in
    let interrupted =
      steps-IsInterrupted turn at (finish_interrupt at turn event true r) ss b
        (finished-IsInterrupted at turn event r e) in
    interrupted-refused later at turn (refresh_turn_owners after) soon (
      memory-IsInterrupted turn at after (refresh_turn_owners after).1
        (memory-refresh_turn_owners after) interrupted)
