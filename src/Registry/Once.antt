-- ===== src/Registry/Once.antt =====
-- How often scripts/daemon_registry.py asks for an interrupt of the same turn.
use codex_must_work.Prelude.{
  any, ℕ, ◌≡◌, refl, sym, subst, ap, String, Bool, true, false, Option, none, some, List, [], ◌∷◌,
  Dict, ◌==◌, ◌&&◌, get, get-put, get-remove, eq_iff, eq_refl, str_eq, arith, Bool-cases, inl, inr,
}
use codex_must_work.Registry.{DaemonRegistry, publish, discard_index, detach, detach_all}
use codex_must_work.Registry.Owners.{refresh_turn_owners}
use codex_must_work.Registry.Routing.{selected_locked}
use codex_must_work.Registry.Interrupts.{
  Entry, claims, claim_interrupt_attempt, enter_refreshed, enter_interrupt, finish_interrupt,
  leave_interrupt,
}
use codex_must_work.Registry.Memory.{
  memory, memory-refresh_turn_owners, memory-discard_index, memory-detach, memory-selected_locked,
}
use codex_must_work.Registry.Histories.{
  Step, publishes, discards, detaches, detaches_all, selects, enters, finishes, leaves, writes,
  step, steps,
}

abbrev pub is_claim : Entry → Bool
is_claim (claims event) = true
is_claim _ = false

-- Another thread is asking for the interrupt of the turn, with this event.
abbrev pub IsUnderway : String → ℕ → DaemonRegistry → Type 0
IsUnderway turn event r = get r.interrupt_attempts turn ≡ some event

-- The step is the end of this very attempt.
abbrev pub ends_attempt : String → ℕ → Step → Bool
ends_attempt turn event (finishes now t e succeeded) = str_eq t turn && e == event
ends_attempt turn event _ = false

memory-IsUnderway :
    (turn : String) (event : ℕ) (r s : DaemonRegistry)
    → memory s ≡ memory r
    → IsUnderway turn event r
    → IsUnderway turn event s
memory-IsUnderway turn event r s e u =
    subst (λ (m : Dict ℕ × Dict ℕ × ℕ). get m.1 turn ≡ some event) (sym e) u

claim_interrupt_attempt-IsUnderway :
    (now : ℕ) (t turn : String) (event : ℕ) (r : DaemonRegistry)
    → IsUnderway turn event r
    → IsUnderway turn event (claim_interrupt_attempt now t r).1
unfolding claim_interrupt_attempt
claim_interrupt_attempt-IsUnderway now t turn event r u = elim (Bool-cases (str_eq t turn)) [
  | inl same ↦
      let here : get r.interrupt_attempts t ≡ some event =
        rw (ap (get r.interrupt_attempts) ((eq_iff t turn).0 same)) u in
      simp (claim_interrupt_attempt, here) (ground arith)
  | inr other ↦ ground (arith, get-put r.interrupt_attempts t turn r.next_event)
]

enter_refreshed-IsUnderway :
    (now : ℕ) (t turn : String) (event : ℕ) (o : Option String × DaemonRegistry)
    → IsUnderway turn event o.1
    → IsUnderway turn event (enter_refreshed now t o).1
unfolding enter_refreshed
enter_refreshed-IsUnderway now t turn event (some reason, r) u = u
enter_refreshed-IsUnderway now t turn event (none, r) u =
    ground (arith, claim_interrupt_attempt-IsUnderway now t turn event r u)

finish_interrupt-IsUnderway :
    (now : ℕ) (t : String) (e : ℕ) (succeeded : Bool) (turn : String) (event : ℕ)
    (r : DaemonRegistry)
    → ends_attempt turn event (finishes now t e succeeded) ≡ false
    → IsUnderway turn event r
    → IsUnderway turn event (finish_interrupt now t e succeeded r)
unfolding finish_interrupt
finish_interrupt-IsUnderway now t e succeeded turn event r o u = elim (Bool-cases (str_eq t turn)) [
  | inl same ↦
      let here : get r.interrupt_attempts t ≡ some event =
        rw (ap (get r.interrupt_attempts) ((eq_iff t turn).0 same)) u in
      simp (finish_interrupt, here) (ground arith)
  | inr other ↦ ground (arith, get-remove r.interrupt_attempts t turn)
]

step-IsUnderway :
    (turn : String) (event : ℕ) (r : DaemonRegistry) (s : Step)
    → ends_attempt turn event s ≡ false
    → IsUnderway turn event r
    → IsUnderway turn event (step r s)
unfolding step publish detach_all
step-IsUnderway turn event r (publishes task) o u = u
step-IsUnderway turn event r (discards task) o u =
    memory-IsUnderway turn event r (discard_index task r) (memory-discard_index task r) u
step-IsUnderway turn event r (detaches tasks) o u =
    memory-IsUnderway turn event r (detach tasks r).2 (memory-detach tasks r) u
step-IsUnderway turn event r detaches_all o u = u
step-IsUnderway turn event r (selects activity reading) o u =
    memory-IsUnderway turn event r (selected_locked activity reading r).1
      (memory-selected_locked activity reading r) u
step-IsUnderway turn event r (enters now t) o u =
    unfold enter_interrupt in
    enter_refreshed-IsUnderway now t turn event (refresh_turn_owners r)
      (memory-IsUnderway turn event r (refresh_turn_owners r).1 (memory-refresh_turn_owners r) u)
step-IsUnderway turn event r (finishes now t e succeeded) o u =
    finish_interrupt-IsUnderway now t e succeeded turn event r o u
step-IsUnderway turn event r (leaves t) o u =
    unfold leave_interrupt in
    memory-IsUnderway turn event r (refresh_turn_owners r).1 (memory-refresh_turn_owners r) u
step-IsUnderway turn event r (writes files) o u = u

steps-IsUnderway :
    (turn : String) (event : ℕ) (r : DaemonRegistry) (ss : List Step)
    → any (ends_attempt turn event) ss ≡ false
    → IsUnderway turn event r
    → IsUnderway turn event (steps r ss)
unfolding steps
steps-IsUnderway turn event r [] o u = u
steps-IsUnderway turn event r (s ∷ ss) o u =
    steps-IsUnderway turn event (step r s) ss (ground arith)
      (step-IsUnderway turn event r s (ground arith) u)

underway-refused :
    (now : ℕ) (turn : String) (event : ℕ) (o : Option String × DaemonRegistry)
    → IsUnderway turn event o.1
    → is_claim (enter_refreshed now turn o).0 ≡ false
unfolding enter_refreshed claim_interrupt_attempt
underway-refused now turn event (some reason, r) u = refl
underway-refused now turn event (none, r) u = ground arith

-- The claim of an attempt puts it under way.
claimed-IsUnderway :
    (now : ℕ) (turn : String) (event : ℕ) (o : Option String × DaemonRegistry)
    → (enter_refreshed now turn o).0 ≡ claims event
    → IsUnderway turn event (enter_refreshed now turn o).1
unfolding enter_refreshed claim_interrupt_attempt
claimed-IsUnderway now turn event (some reason, r) h = ground arith
claimed-IsUnderway now turn event (none, r) h =
    ground (arith, get-put r.interrupt_attempts turn turn r.next_event, eq_refl turn)

-- Only one thread at a time asks for the interrupt of a turn: from the claim of an attempt until that
-- attempt is finished, whatever other threads do in between, no thread that enters for the same turn
-- claims another.
pub one_attempt_at_a_time :
    (now later : ℕ) (turn : String) (event : ℕ) (r : DaemonRegistry) (ss : List Step)
    → (enter_interrupt now turn r).0 ≡ claims event
    → any (ends_attempt turn event) ss ≡ false
    → is_claim (enter_interrupt later turn (steps (enter_interrupt now turn r).1 ss)).0 ≡ false
unfolding enter_interrupt
one_attempt_at_a_time now later turn event r ss h o =
    let underway =
      steps-IsUnderway turn event (enter_interrupt now turn r).1 ss o
        (claimed-IsUnderway now turn event (refresh_turn_owners r) h) in
    let after = steps (enter_interrupt now turn r).1 ss in
    underway-refused later turn event (refresh_turn_owners after) (
      memory-IsUnderway turn event after (refresh_turn_owners after).1
        (memory-refresh_turn_owners after) underway)
