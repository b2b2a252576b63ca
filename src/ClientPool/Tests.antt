-- ===== src/ClientPool/Tests.antt =====
-- A client that is made, shared, released and closed, and the theorems at concrete inputs.
use codex_must_work.Prelude.{[], ◌∷◌, ◌≡◌, refl, true, false, none, some, any}
use codex_must_work.ClientPool.References.{ReferenceRecord, borrowed, closing, find, assign}
use codex_must_work.ClientPool.{
  PooledClient, SharedClientPool, look_up, publish, leave, give_up, release, begin_close, holds,
  retain,
}
use codex_must_work.ClientPool.Invariant.{IsBound, looked}
use codex_must_work.ClientPool.Reachable.{
  looks_up, publishes, releases, Reachable, starts, steps, is_active_for, Reachable-IsBound,
  closed_only_idle,
}

abbrev client : PooledClient
client = record { client = 7; fingerprint = "f" }

abbrev first : ReferenceRecord
first = record { client = 7; state = borrowed; close_gate = 0; serial = 0 }

abbrev second : ReferenceRecord
second = record { client = 7; state = borrowed; close_gate = 1; serial = 1 }

abbrev last : ReferenceRecord
last = record { client = 7; state = closing; close_gate = 0; serial = 1 }

abbrev reserved : SharedClientPool
reserved = record { pooled = none; references = []; reserved = true; fresh = 0 }

abbrev one : SharedClientPool
one = record { pooled = some client; references = (0, first) ∷ []; reserved = false; fresh = 1 }

abbrev two : SharedClientPool
two = record one { references = (0, first) ∷ (1, second) ∷ []; fresh = 2 }

abbrev released : SharedClientPool
released = record { pooled = none; references = (0, last) ∷ []; reserved = false; fresh = 2 }

one-Reachable : Reachable one
unfolding look_up publish retain assign
one-Reachable = steps (steps starts (looks_up "f" refl)) (publishes 7 "f" refl refl)

two-Reachable : Reachable two
unfolding look_up publish retain assign
two-Reachable = steps one-Reachable (looks_up "f" refl)

released-Reachable : Reachable released
unfolding release find
released-Reachable = steps one-Reachable (releases 0)

Reachable-IsBound_example : IsBound two
Reachable-IsBound_example = Reachable-IsBound two two-Reachable

found_last : find 0 released.references ≡ some last
unfolding find
found_last = refl

closed_only_idle_example :
    (begin_close 0 last released ≡ (some last.client, released))
    × (holds released.pooled last.client ≡ false)
    × (any (is_active_for last.client) released.references ≡ false)
closed_only_idle_example = closed_only_idle released 0 last released-Reachable found_last refl

found_first : find 0 two.references ≡ some first
unfolding find
found_first = refl

found_only : find 0 one.references ≡ some first
unfolding find
found_only = refl

-- A borrower fails, another makes the client of `one` before the handler of the first runs, and the
-- handler closes that client while its reference is active.
taken_away : (publish 7 "f" (looked (leave reserved) (look_up "f" (leave reserved)))).1 ≡ one
unfolding publish look_up leave retain assign
taken_away = refl

closed_in_use : give_up one ≡ (some 7, record one { pooled = none })
unfolding give_up
closed_in_use = refl
