-- ===== src/Registry/Bounds.antt =====
-- How many interrupts scripts/daemon_registry.py remembers.
use codex_must_work.Prelude.{
  ℕ, ◌+◌, ◌≤◌, ◌≡◌, sym, subst, String, Bool, Option, none, some, List, [], ◌∷◌, Dict, get, length,
  length-put, length-remove-has, get-has, length-keep_le, arith, Option-cases, inl, inr,
}
use codex_must_work.Manager.{Values}
use codex_must_work.Registry.{
  DaemonRegistry, init, max_turn_correlations, publish, discard_index, detach, detach_all,
}
use codex_must_work.Registry.Owners.{refresh_turn_owners}
use codex_must_work.Registry.Routing.{selected_locked}
use codex_must_work.Registry.Interrupts.{
  unexpired, claim_interrupt_attempt, enter_refreshed, enter_interrupt, finish_interrupt,
  leave_interrupt,
}
use codex_must_work.Registry.Memory.{
  memory, memory-refresh_turn_owners, memory-discard_index, memory-detach, memory-selected_locked,
}
use codex_must_work.Registry.Histories.{
  Step, publishes, discards, detaches, detaches_all, selects, enters, finishes, leaves, writes,
  step, steps,
}

-- The interrupts that were made and those under way are at most 2048 together.
abbrev pub IsBounded : DaemonRegistry → Type 0
IsBounded r = length r.interrupted_turns + length r.interrupt_attempts ≤ max_turn_correlations

memory-IsBounded : (r s : DaemonRegistry) → memory s ≡ memory r → IsBounded r → IsBounded s
memory-IsBounded r s e b =
    subst (λ (m : Dict ℕ × Dict ℕ × ℕ). length m.0 + length m.1 ≤ max_turn_correlations) (sym e) b

claim_interrupt_attempt-IsBounded :
    (now : ℕ) (turn : String) (r : DaemonRegistry)
    → IsBounded r
    → IsBounded (claim_interrupt_attempt now turn r).1
unfolding claim_interrupt_attempt
claim_interrupt_attempt-IsBounded now turn r b = ground (
  arith,
  length-keep_le (unexpired now) r.interrupted_turns,
  length-put turn r.next_event r.interrupt_attempts,
)

enter_refreshed-IsBounded :
    (now : ℕ) (turn : String) (o : Option String × DaemonRegistry)
    → IsBounded o.1
    → IsBounded (enter_refreshed now turn o).1
unfolding enter_refreshed
enter_refreshed-IsBounded now turn (some reason, r) b = b
enter_refreshed-IsBounded now turn (none, r) b =
    ground (arith, claim_interrupt_attempt-IsBounded now turn r b)

finish_interrupt-IsBounded :
    (now : ℕ) (turn : String) (event : ℕ) (succeeded : Bool) (r : DaemonRegistry)
    → IsBounded r
    → IsBounded (finish_interrupt now turn event succeeded r)
unfolding finish_interrupt
finish_interrupt-IsBounded now turn event succeeded r b =
    elim (Option-cases (get r.interrupt_attempts turn)) [
      | inl e ↦ simp (finish_interrupt, e) b
      | inr (current, e) ↦
          simp (finish_interrupt, e)
            (ground (
              arith,
              length-put turn now r.interrupted_turns,
              length-remove-has turn r.interrupt_attempts
                  (get-has turn current r.interrupt_attempts e),
            ))
    ]

step-IsBounded : (r : DaemonRegistry) (s : Step) → IsBounded r → IsBounded (step r s)
unfolding step publish detach_all
step-IsBounded r (publishes task) b = b
step-IsBounded r (discards task) b =
    memory-IsBounded r (discard_index task r) (memory-discard_index task r) b
step-IsBounded r (detaches tasks) b =
    memory-IsBounded r (detach tasks r).2 (memory-detach tasks r) b
step-IsBounded r detaches_all b = omega arith
step-IsBounded r (selects activity reading) b =
    memory-IsBounded r (selected_locked activity reading r).1
      (memory-selected_locked activity reading r) b
step-IsBounded r (enters now turn) b =
    unfold enter_interrupt in
    enter_refreshed-IsBounded now turn (refresh_turn_owners r)
      (memory-IsBounded r (refresh_turn_owners r).1 (memory-refresh_turn_owners r) b)
step-IsBounded r (finishes now turn event succeeded) b =
    finish_interrupt-IsBounded now turn event succeeded r b
step-IsBounded r (leaves turn) b =
    unfold leave_interrupt in
    memory-IsBounded r (refresh_turn_owners r).1 (memory-refresh_turn_owners r) b
step-IsBounded r (writes files) b = b

steps-IsBounded : (r : DaemonRegistry) (ss : List Step) → IsBounded r → IsBounded (steps r ss)
unfolding steps
steps-IsBounded r [] b = b
steps-IsBounded r (s ∷ ss) b = steps-IsBounded (step r s) ss (step-IsBounded r s b)

-- Whatever the threads of a daemon call on its registry and in whatever order, it remembers at most 2048
-- interrupts, those that were made and those under way together.
pub steps-init-IsBounded :
    (files : Dict Values) (ss : List Step) → IsBounded (steps (init files) ss)
steps-init-IsBounded files ss = steps-IsBounded (init files) ss (omega arith)
