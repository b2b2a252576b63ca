-- ===== src/Lib.antt =====
-- Codex Must Work watches one Codex thread: it reads the progress signals of the thread's rollout,
-- warns when they stay away, and reports a critical stall. A daemon keeps the watched sessions, runs
-- their deadlines on one scheduler thread and shares one app-server client between them; a manager
-- hands turns over, interrupts a stalled turn and starts its replacement, with the ownership of the
-- turn kept in a state file. This library models the decision logic of these parts and proves what
-- makes each of them correct.
--
-- Prelude: tests on numbers and texts, lists, and dictionaries with text keys.
-- Detector: scripts/stall_detector.py. Detector/Runs drives it by any sequence of calls,
--   Detector/Escalation says when it speaks, Detector/Waits what a pause does.
-- Events: scripts/watcher_events.py, with the record of scripts/event_source.py: what a batch of
--   rollout events does to a detector (Events/Progress) and to the open tool calls
--   (Events/OpenCalls).
-- Scheduler: scripts/daemon_scheduler.py. Scheduler/Order is its heap, Scheduler/Invariant what every
--   method keeps, Scheduler/Due which callback runs, Scheduler/Histories its
--   histories, Scheduler/Once what fires in them, Scheduler/Health the health of the worker.
-- Manager: the runtime file of scripts/manager_runtime.py. Manager/Ownership has its writes with
--   those of scripts/daemon_activation_fence.py, scripts/manager_restart_guard.py and
--   scripts/manager_failure.py, Manager/Ownership/Histories any sequence of them,
--   Manager/Ownership/Protocol what they need of each other, Manager/Decision
--   scripts/manager_decision.py, Manager/Outcomes scripts/manager_outcome.py,
--   Manager/Interrupt scripts/manager_interrupt.py, Manager/Engine scripts/manager_engine.py with
--   scripts/manager_shutdown.py: Manager/Engine/Handoff, Manager/Engine/Interrupting and
--   Manager/Engine/Restart follow its ticks.
-- Diagnostics: the bounded log of scripts/monitor_diagnostics.py. Diagnostics/Identities has the
--   identities of its events, Diagnostics/Retained what it keeps.
-- Monitors: the monitors of a runtime file, scripts/monitor_state.py and
--   scripts/activity_epoch.py. Monitors/Views is what a write to one of them leaves.
-- Hooks: scripts/hook_state.py, with scripts/hook_event.py around it and
--   scripts/session_shutdown.py. Hooks/Freshness is the epoch that they advance,
--   Hooks/Lives when a monitor goes on, Hooks/Generations the lives of a monitor, Hooks/Endings the
--   end of a turn.
-- Rollout: scripts/watcher_source.py, the incremental reading of a session's rollout file.
--   Rollout/Lines has its complete lines, Rollout/Reading what one read takes, Rollout/Growth a file
--   that grows between reads, Rollout/Total that a read gets all there is.
-- Watcher: the watcher's rounds over one runtime file, scripts/watcher_runtime.py,
--   scripts/watcher_batch.py and scripts/watcher_commit.py, among the hooks that write to it.
--   Watcher/Snapshots is what a commit writes, Watcher/Applied what was given on up to the saved
--   cursor, Watcher/Exactly which events are given on.
-- AppServer: scripts/app_server_protocol.py. AppServer/Events is the state of a connection,
--   AppServer/Events/Cases what a message can do, AppServer/Events/Retention and
--   AppServer/Events/Bounds what it retains, AppServer/Events/Owners whose turn it was.
--   AppServer/Activity is what the client publishes of its connections
--   (scripts/app_server_activity.py), AppServer/Activity/Cases what a call can do,
--   AppServer/Activity/Readers the readers of old connections, AppServer/Activity/Sequence what a
--   follower of the observations gets, AppServer/Activity/Closing the losses of connections.
-- ClientPool: scripts/daemon_client_pool.py. ClientPool/References has its dict of references,
--   ClientPool/Keys that no key of it repeats, ClientPool/Fits what an update does to it,
--   ClientPool/Invariant and ClientPool/Exclusion what every method keeps, ClientPool/Reachable the
--   orderly interleavings of threads, ClientPool/Closing who closes the client.
-- Registry: scripts/daemon_registry.py. Registry/Owners is whose a turn is, Registry/Routing what a
--   turn start does and Registry/Decided what is decided of it, Registry/Interrupts the
--   interrupts, Registry/Histories the calls of any threads, Registry/Memory what leaves the
--   interrupts alone, Registry/Bounds, Registry/Once and Registry/Expiry how many there are,
--   Registry/Rollback what is undone when a start fails.
-- Lifecycle: scripts/daemon_lifecycle.py. Lifecycle/Threads has threads that are admitted and that
--   close, in any order, Lifecycle/Shutdown what they find, Lifecycle/Reports the report.
-- Task: scripts/daemon_task.py. Task/Deadlines is when a task is looked at, Task/Lease its lease.
-- Silence: scripts/silence.py. Silence/Gate is its automatic restart, Silence/Stall compares it with
--   Detector.
-- Calibration: scripts/calibration.py. Calibration/Sorting has the ranks of sorted samples,
--   Calibration/Coverage what the recommended thresholds cover.
-- Mcp: what the MCP server accepts, scripts/mcp_limits.py. Mcp/Structure has the limits as a
--   recursion, Mcp/Requests the requests of scripts/mcp_protocol.py, Mcp/Answers whom it answers.
-- WorkOn: the tickets of scripts/work_on_activation.py and scripts/work_on_identity.py.
-- ActivationFence: scripts/activation_fence.py. ActivationFence/Batches joins its polls,
--   ActivationFence/Capture compares capture and recovery.
--
-- Conventions. A monotonic time is a natural number of clock ticks (the source has floats; the code
-- only compares, adds and takes the latest of them, and the model leaves rounding out). A difference
-- that is compared is written as a comparison of sums, so that no subtraction stops at 0. Texts are
-- the native strings. A method that mutates an object returns the new object; an exception is a
-- value. A body that the source runs under a lock is one step; theorems about histories let such
-- steps come in any order. Where a loop takes fuel, a theorem says how much is enough.
--
-- The restart of a stalled turn is modelled as the manager has it, but nothing in the repository writes
-- the restart request that it waits for. Interleavings of the client pool are orderly, as
-- ClientPool/Reachable says; the code does not enforce it.
--
-- Not modelled: reading and writing the state files and their locks, JSON and TOML texts, processes,
-- sockets and HTTP, the installer and uninstaller, and Discord delivery.
pub mod Prelude
pub mod Detector
pub mod Events
pub mod Scheduler
pub mod Manager
pub mod ClientPool
pub mod WorkOn
pub mod ActivationFence
pub mod Diagnostics
pub mod Monitors
pub mod Hooks
pub mod Rollout
pub mod Watcher
pub mod AppServer
pub mod Registry
pub mod Calibration
pub mod Task
pub mod Silence
pub mod Lifecycle
pub mod Mcp
