-- ===== src/Watcher/Tests.antt =====
-- A watcher whose engine counts its events in the epoch, on a rollout that grows while hooks write.
use codex_must_work.Prelude.{
  ℕ, ◌+◌, ◌≡◌, refl, Bool, true, false, Option, none, some, List, [], ◌∷◌, length, arith, Result,
  ok,
}
use codex_must_work.Monitors.{Monitor, RuntimeValues}
use codex_must_work.Hooks.{pre_tool_use}
use codex_must_work.Rollout.{Limits, RolloutCursor}
use codex_must_work.Watcher.{World, Meanwhile, Round, pass, tick, rounds, revised}
use codex_must_work.Watcher.Snapshots.{tick_writes_snapshot}
use codex_must_work.Watcher.Applied.{IsApplied}
use codex_must_work.Watcher.Exactly.{rounds-IsApplied}

abbrev size_of : List ℕ → Option ℕ
size_of line = some (length line)

abbrev as_event : ℕ → Option ℕ
as_event n = some n

abbrev engine : RuntimeValues → List ℕ → Result (Bool × RuntimeValues)
engine v events =
    ok (true, record v { turn_activity_epoch = v.turn_activity_epoch + length events })

abbrev small : Limits
small = record { line_bytes = 8; batch_bytes = 8; batch_records = 2 }

abbrev running : Monitor
running = record {
  terminal = false;
  generation = 1;
  last_tool_result_at = none;
  silence_started_at = none;
  open_tool_count = 0;
  waiting_for_approval = false;
  waiting_for_user = false;
  silence_id = "0";
  progress_epoch = 0;
}

abbrev start : RolloutCursor
start = record { device = 1; file_id = 2; offset = 0 }

abbrev world : World
world = record {
  values = record {
    enabled = true;
    observe_only = true;
    managed_mode = false;
    manager_ready = false;
    parent = some running;
    children = [];
    parent_turn_id = some "t";
    parent_complete = false;
    managed_turn_id = none;
    handoff_requested = false;
    shutdown_requested = false;
    shutdown_interrupt = false;
    restart_request = none;
    restart_claimed = false;
    restart_claimed_at = none;
    completion_event_id = none;
    turn_activity_epoch = 0;
    revision = 0;
  };
  rollout = record { device = 1; file_id = 2; content = 7 ∷ 10 ∷ [] };
  cursor = some start;
  failed = false;
}

abbrev grows : List ℕ → Meanwhile
grows bytes = record { hooks = []; gained = bytes }

abbrev tool : Meanwhile
tool = record {
  hooks =
      (record {
        payload = record { event = pre_tool_use; turn_id = none; agent_id = none };
        same_transcript = true;
        now = 3;
        silence_id = "1";
      })
      ∷ [];
  gained = [];
}

-- The commit of the first round is overtaken by a hook.
abbrev two_rounds : List Round
two_rounds =
    (record { before = grows []; after = tool; idle = grows [] })
    ∷ (record { before = grows (5 ∷ 5 ∷ 10 ∷ 6 ∷ []); after = grows (6 ∷ []); idle = grows [] })
    ∷ []

given : (rounds size_of as_event engine small two_rounds world).0 ≡ 2 ∷ 3 ∷ []
unfolding rounds
given = refl

rounds-IsApplied_example :
    IsApplied size_of as_event engine start
      (rounds size_of as_event engine small two_rounds world).0
      (rounds size_of as_event engine small two_rounds world).1
rounds-IsApplied_example =
    rounds-IsApplied size_of as_event engine small two_rounds world start refl (omega arith)

asked : (tick size_of as_event engine small (grows []) (grows []) world).0 ≡ some (2 ∷ [])
unfolding tick
asked = refl

tick_writes_snapshot_example :
    ((pass (grows []) (pass (grows []) world)).values ≡ world.values)
    × (active : Bool) × (answer : RuntimeValues) × (engine world.values (2 ∷ [])
        ≡ ok (active, answer))
    × ((tick size_of as_event engine small (grows []) (grows []) world).1.values
        ≡ revised size_of as_event engine world.values answer)
tick_writes_snapshot_example =
    tick_writes_snapshot size_of as_event engine small (grows []) (grows []) world (2 ∷ []) asked
