-- ===== src/Registry.antt =====
-- `DaemonRegistry` of scripts/daemon_registry.py: the tasks of the daemon and the routing of app-server
-- activity to them. A call under the registry's lock is one step. A runtime file is named by the digest
-- of its session's id, so the files are a dict by session; one that cannot be parsed is not modelled.
-- Of an activation fence (scripts/daemon_activation_fence.py) its turn is kept. A task or an event has a
-- number, which is its identity.
pub mod Owners
pub mod Routing
pub mod Decided
pub mod Interrupts
pub mod Histories
pub mod Memory
pub mod Bounds
pub mod Once
pub mod Expiry
pub mod Rollback
mod Tests
use codex_must_work.Prelude.{
  ℕ, ◌+◌, String, Bool, true, false, Option, none, some, List, [], ◌∷◌, ◌++◌, Dict, get, put,
  remove, ◌==◌, ltb, length, map, count_if, if◌then◌else◌,
}
use codex_must_work.Manager.{Values}

pub record DaemonTask : Type 0 where
  pub identity : ℕ
  pub session_id : String
  pub managed : Bool

pub record DaemonRegistry : Type 0 where
  pub tasks : Dict DaemonTask
  pub fences : Dict String
  pub turn_owners : Dict (Option DaemonTask)
  pub interrupted_turns : Dict ℕ
  pub interrupt_attempts : Dict ℕ
  pub routing_diagnostics : List String
  pub next_event : ℕ
  pub files : Dict Values

abbrev pub init : Dict Values → DaemonRegistry
init files = record {
  tasks = [];
  fences = [];
  turn_owners = [];
  interrupted_turns = [];
  interrupt_attempts = [];
  routing_diagnostics = [];
  next_event = 0;
  files = files;
}

abbrev pub max_turn_correlations : ℕ
max_turn_correlations = 2048

abbrev pub correlation_expiry : ℕ
correlation_expiry = 600000000

abbrev pub pending_grace : ℕ
pending_grace = 60000000

abbrev pub max_routing_diagnostics : ℕ
max_routing_diagnostics = 20

abbrev drop_oldest : List String → List String
drop_oldest [] = []
drop_oldest (oldest ∷ codes) = codes

-- `_diagnose`: the deque drops its oldest code when it is full.
unfoldable pub diagnose : String → DaemonRegistry → DaemonRegistry
diagnose code r =
    let codes = r.routing_diagnostics ++ (code ∷ []) in
    record r {
      routing_diagnostics =
          if ltb max_routing_diagnostics (length codes) then drop_oldest codes else codes;
    }

-- `self._tasks.get(task.session_id) is task`
unfoldable pub is_indexed : DaemonTask → DaemonRegistry → Bool
unfolding get
is_indexed task r = elim (get r.tasks task.session_id) [
  | none ↦ false
  | some found ↦ found.identity == task.identity
]

-- `_publish`, once the borrow is committed.
unfoldable pub publish : DaemonTask → DaemonRegistry → DaemonRegistry
unfolding put
publish task r = record r { tasks = put task.session_id task r.tasks }

-- `_discard_index`
unfoldable pub discard_index : DaemonTask → DaemonRegistry → DaemonRegistry
unfolding is_indexed remove
discard_index task r =
    if is_indexed task r then record r { tasks = remove task.session_id r.tasks } else r

-- `detach`: the tasks that were detached, how many references of the client they held, and the
-- registry.
unfoldable pub detach : List DaemonTask → DaemonRegistry → List DaemonTask × ℕ × DaemonRegistry
unfolding is_indexed remove
detach [] r = ([], 0, r)
detach (task ∷ tasks) r =
    let without = record r {
      tasks = remove task.session_id r.tasks;
      fences = remove task.session_id r.fences;
    } in
    let (rest, references, after) = detach tasks (if is_indexed task r then without else r) in
    if is_indexed task r
    then (task ∷ rest, (if task.managed then 1 else 0) + references, after)
    else (rest, references, after)

-- `detach_all`
unfoldable pub detach_all : DaemonRegistry → List DaemonTask × ℕ × DaemonRegistry
detach_all r =
    let tasks = map (λ e. e.1) r.tasks in
    (
      tasks,
      count_if (λ task. task.managed) tasks,
      record r { tasks = []; fences = []; turn_owners = []; interrupted_turns = [] },
    )
