-- ===== src/Lifecycle/Shutdown.antt =====
-- When scripts/daemon_lifecycle.py closes its resources, and what it tells the threads that close.
use codex_must_work.Prelude.{ℕ, ◌≡◌, refl, [], true, false, arith, subst}
use codex_must_work.Lifecycle.{begin_admission, is_drained}
use codex_must_work.Lifecycle.Threads.{
  Machine, Phase, draining, closing, Step, Reachable, IsAt, Reachable-IsMachine,
}

at : (p : Phase) (m : Machine) → m.phase ≡ p → Reachable m → IsAt p m
at p m e r = subst (λ q. IsAt q m) e (Reachable-IsMachine m r).placed

-- However threads are admitted, leave and close: while the resources of the daemon are being closed, they
-- have not been closed before, no thread is inside an admitted operation, and none is admitted.
pub closes_alone :
    (m : Machine) (thread : ℕ)
    → Reachable m
    → m.phase ≡ closing thread
    → (m.closings ≡ 1) × (m.operations ≡ []) × ((begin_admission m.lifecycle).0 ≡ false)
unfolding begin_admission
closes_alone m thread r e =
    let (s, f, o, c, alone) = at (closing thread) m e r in (c, alone, simp s refl)

-- A close that waits for the admitted operations can go on once they are over: where none is left, it
-- stops waiting.
drains_when_idle :
    (m : Machine) (thread : ℕ)
    → Reachable m
    → m.phase ≡ draining thread
    → m.operations ≡ []
    → is_drained m.lifecycle ≡ true
unfolding is_drained
drains_when_idle m thread r e idle = ground (arith, (Reachable-IsMachine m r).counted)

-- The machines that any further steps reach.
pub data Later (m : Machine) : Machine → Type 0 where
  now : Later m m
  next : {n k : Machine} → Later m n → Step n k → Later m k
