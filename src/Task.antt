-- ===== src/Task.antt =====
-- `DaemonTask` of scripts/daemon_task.py: one session inside the daemon, with its thresholds, its manager
-- lease and its engine. What acquires a lease and what the app server answers are arguments; a lease has
-- a number. The runtime file is there unless it is said not to be.
pub mod Deadlines
pub mod Lease
mod Tests
use codex_must_work.Prelude.{
  ℕ, ◌+◌, Bool, true, false, not, ◌&&◌, ◌||◌, Option, none, some, ltb, ◌==◌, is_none, if◌then◌else◌,
  Result, ok, err,
}
use codex_must_work.Manager.{Values}
use codex_must_work.Manager.Ownership.{bump_revision}
use codex_must_work.Manager.Engine.{Server, initialize as initialize_engine}

pub data DeadlineKind : Type 0 where
  warning restart heartbeat : DeadlineKind

pub record TaskDeadline : Type 0 where
  pub at : ℕ
  pub kind : DeadlineKind

pub record DaemonTask : Type 0 where
  pub pid : ℕ
  pub managed : Bool
  pub warning_seconds : ℕ
  pub restart_seconds : ℕ
  pub silence_started : ℕ
  pub deadline_kind : DeadlineKind
  pub initialized : Bool
  pub closed : Bool
  pub lease : Option ℕ

-- `__init__`, at the time `now`.
unfoldable pub new_task : ℕ → Bool → ℕ → ℕ → ℕ → Option ℕ → DaemonTask
new_task pid managed warning_seconds restart_seconds now lease = record {
  pid = pid;
  managed = managed;
  warning_seconds = warning_seconds;
  restart_seconds = restart_seconds;
  silence_started = now;
  deadline_kind = warning;
  initialized = false;
  closed = false;
  lease = lease;
}

unfoldable pub record_activity : ℕ → DaemonTask → DaemonTask
record_activity now t =
    if ltb now t.silence_started
    then t
    else record t { silence_started = now; deadline_kind = warning }

abbrev pub offset : DeadlineKind → DaemonTask → ℕ
offset warning t = t.warning_seconds
offset restart t = t.restart_seconds
offset heartbeat t = t.warning_seconds

unfoldable pub next_deadline : DaemonTask → TaskDeadline
next_deadline t = record {
  at = t.silence_started + offset t.deadline_kind t;
  kind = t.deadline_kind;
}

abbrev pub same_kind : DeadlineKind → DeadlineKind → Bool
same_kind warning warning = true
same_kind restart restart = true
same_kind heartbeat heartbeat = true
same_kind _ _ = false

-- `self.next_deadline() == expected`
unfoldable pub is_next : TaskDeadline → DaemonTask → Bool
unfolding next_deadline
is_next expected t =
    (next_deadline t).at == expected.at && same_kind (next_deadline t).kind expected.kind

abbrev pub advanced : DeadlineKind → ℕ → DaemonTask → DaemonTask
advanced warning now t = record t { deadline_kind = restart }
advanced restart now t = record t { deadline_kind = heartbeat; silence_started = now }
advanced heartbeat now t = record t { deadline_kind = heartbeat; silence_started = now }

unfoldable pub advance_deadline : TaskDeadline → ℕ → DaemonTask → Bool × DaemonTask
unfolding is_next
advance_deadline expected now t =
    if not (is_next expected t) then (false, t) else (true, advanced expected.kind now t)

-- `_release_lease`, with the lease that is released.
unfoldable pub release_lease : DaemonTask → Option ℕ × DaemonTask
release_lease t = (t.lease, record t { lease = none })

-- What a call returns or raises, the task, the file and the lease that was released.
pub record Outcome : Type 0 where
  pub result : Result (Unit {0})
  pub task : DaemonTask
  pub file : Values
  pub released : Option ℕ

abbrev pub initialized_with : Result Values → DaemonTask → Values → Outcome
initialized_with (ok w) t v = record {
  result = ok tt;
  task = record t { initialized = true };
  file = w;
  released = none;
}
initialized_with (err reason) t v = record {
  result = err reason;
  task = record t { lease = none };
  file = v;
  released = t.lease;
}

-- `initialize`; `acquired` is the lease that `acquire_manager_lease` gives, if it gives one.
unfoldable pub initialize : Server → Option ℕ → DaemonTask → Values → Outcome
unfolding initialize_engine
initialize server acquired t v =
    let started = initialize_engine server t.pid v in
    let held : Option ℕ = elim t.lease [ none ↦ acquired | some l ↦ some l ] in
    if t.initialized || not t.managed
    then record {
      result = ok tt;
      task = record t { initialized = true };
      file = v;
      released = none;
    }
    else if is_none held
    then record {
      result = err "session_manager_still_running";
      task = t;
      file = v;
      released = none;
    }
    else initialized_with started (record t { lease = held }) v

-- `_mark_stopped_if_owned`
unfoldable pub mark_stopped_if_owned : ℕ → Values → Values
unfolding bump_revision
mark_stopped_if_owned pid v = elim v.manager_pid [
  | none ↦ v
  | some owner ↦
      if owner == pid
      then bump_revision (record v { manager_ready = false; manager_pid = none })
      else v
]

-- The end of `close`: whatever the write of the runtime file does, the lease is released.
abbrev pub closed_with : Result Values → DaemonTask → Values → Outcome
closed_with (ok w) t v = record {
  result = ok tt;
  task = record t { lease = none };
  file = w;
  released = t.lease;
}
closed_with (err reason) t v = record {
  result = err reason;
  task = record t { lease = none };
  file = v;
  released = t.lease;
}

-- The write of a runtime file by `mutate_existing_state`, which may raise and then writes nothing.
abbrev pub stored : Result (Unit {0}) → Values → Result Values
stored (err reason) v = err reason
stored (ok done) v = ok v

-- `close`, with what the write of the runtime file answers; an engine without a goal guard has nothing
-- to close.
unfoldable pub close : Result (Unit {0}) → DaemonTask → Values → Outcome
unfolding mark_stopped_if_owned
close answer t v =
    let closing =
      closed_with (stored answer (mark_stopped_if_owned t.pid v)) (record t { closed = true }) v in
    if t.closed then record { result = ok tt; task = t; file = v; released = none } else closing
