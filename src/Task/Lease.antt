-- ===== src/Task/Lease.antt =====
-- The manager lease of a task of scripts/daemon_task.py.
use codex_must_work.Prelude.{
  ℕ, ◌≡◌, ◌∙◌, ◌⊎◌, inl, inr, String, Result, true, false, none, some, refl, ok, err,
}
use codex_must_work.Manager.{Values}
use codex_must_work.Manager.Engine.{Server, initialize as initialize_engine}
use codex_must_work.Task.{DaemonTask, Outcome, initialize, initialized_with, close}

-- A close of a task that is still open releases its lease, whether the write of the file raises or not.
close-released :
    (answer : Result (Unit {0})) (t : DaemonTask) (v : Values)
    → t.closed ≡ false
    → ((close answer t v).released ≡ t.lease)
      × ((close answer t v).task.lease ≡ none)
      × ((close answer t v).task.closed ≡ true)
unfolding close
close-released (ok done) t v c = simp c (refl, refl, refl)
close-released (err reason) t v c = simp c (refl, refl, refl)

-- A second close releases nothing.
closed-released :
    (answer : Result (Unit {0})) (t : DaemonTask) (v : Values)
    → t.closed ≡ true
    → (close answer t v).released ≡ none
unfolding close
closed-released answer t v c = simp c refl

-- What a start of the engine that answers `r` makes of the lease, and two closes after it.
abbrev Released :
    Result Values → ℕ → Outcome → Result (Unit {0}) → Result (Unit {0}) → Values → Values → Type 0
Released r lease started a b w u =
    let first = close a started.task w in
    let second = close b first.task u in
    (((file : Values) × (r ≡ ok file)
        × (started.result ≡ ok tt)
        × (started.released ≡ none)
        × (first.released ≡ some lease))
      ⊎ ((reason : String) × (r ≡ err reason)
          × (started.result ≡ err reason)
          × (started.released ≡ some lease)
          × (first.released ≡ none)))
    × (second.released ≡ none)

started-Released :
    (r : Result Values) (lease : ℕ) (t : DaemonTask) (a b : Result (Unit {0})) (v w u : Values)
    → t.closed ≡ false
    → t.lease ≡ some lease
    → Released r lease (initialized_with r t v) a b w u
started-Released (ok file) lease t a b v w u c l =
    let task = record t { initialized = true } in
    let first = close-released a task w c in
    (inl (file, refl, refl, refl, first.0 ∙ l), closed-released b (close a task w).task u first.2)
started-Released (err reason) lease t a b v w u c l =
    let task = record t { lease = none } in
    let first = close-released a task w c in
    (inr (reason, refl, refl, l, first.0), closed-released b (close a task w).task u first.2)

initialize-started :
    (server : Server) (lease : ℕ) (t : DaemonTask) (v : Values)
    → t.managed ≡ true
    → t.initialized ≡ false
    → t.lease ≡ none
    → initialize server (some lease) t v
      ≡ initialized_with (initialize_engine server t.pid v) (record t { lease = some lease }) v
unfolding initialize
initialize-started server lease t v m i l = simp (i, m) (simp l refl)

-- The lease that a managed task acquires is released exactly once: where the start of the engine raises,
-- by that start, which raises the same; where it does not, the start keeps the lease and the first
-- close releases it, also when its write of the runtime file raises; and never by a second close.
pub lease_released_once :
    (server : Server) (lease : ℕ) (t : DaemonTask) (a b : Result (Unit {0})) (v w u : Values)
    → t.managed ≡ true
    → t.initialized ≡ false
    → t.closed ≡ false
    → t.lease ≡ none
    → let engine = initialize_engine server t.pid v in
      let started = initialize server (some lease) t v in
      let first = close a started.task w in
      let second = close b first.task u in
      (((file : Values) × (engine ≡ ok file)
          × (started.result ≡ ok tt)
          × (started.released ≡ none)
          × (first.released ≡ some lease))
        ⊎ ((reason : String) × (engine ≡ err reason)
            × (started.result ≡ err reason)
            × (started.released ≡ some lease)
            × (first.released ≡ none)))
      × (second.released ≡ none)
lease_released_once server lease t a b v w u m i c l =
    rw (initialize-started server lease t v m i l) (
      started-Released (initialize_engine server t.pid v) lease (record t { lease = some lease }) a
        b v w u c refl)
