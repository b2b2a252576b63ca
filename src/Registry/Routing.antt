-- ===== src/Registry/Routing.antt =====
-- `selected` of scripts/daemon_registry.py with `_claim_started` and `_expire_pending_turn`: whose a
-- started turn is. A write of a runtime file takes the file's own lock, so other processes may change
-- the files after the registry has loaded one: `between` says how they are found at the write.
use codex_must_work.Prelude.{
  ℕ, ◌+◌, String, Bool, true, false, not, ◌&&◌, Option, none, some, Dict, get, put, remove, ltb,
  opt_eq, is_none, if◌then◌else◌, Result, ok, err,
}
use codex_must_work.Manager.{Values}
use codex_must_work.Manager.Ownership.{record_turn_started, clear_pending_turn, adopt_started}
use codex_must_work.Manager.Outcomes.{TurnOutcome}
use codex_must_work.Registry.{DaemonTask, DaemonRegistry, diagnose, pending_grace}
use codex_must_work.Registry.Owners.{refresh_turn_owners}

pub data AppServerActivityKind : Type 0 where
  turn_started turn_progress turn_completed server_request connection_closed : AppServerActivityKind

pub record AppServerActivity : Type 0 where
  pub kind : AppServerActivityKind
  pub thread_id : Option String
  pub turn_id : Option String
  pub outcome : Option TurnOutcome

-- The owner of a turn, and the turn to interrupt, with its thread.
abbrev pub Claim : Type 0
Claim = Option DaemonTask × Option (Option String × String)

abbrev pub Claimed : Type 0
Claimed = Result Claim × DaemonRegistry

-- What the registry reads of the clocks and the files during one call.
pub record Reading : Type 0 where
  pub clock : ℕ
  pub now : ℕ
  pub between : Dict Values → Dict Values

-- `adopt_started` of the activation fences; a file that is gone is not adopted.
unfoldable pub adopt_activation :
    DaemonTask → String → Reading → DaemonRegistry → Bool × DaemonRegistry
unfolding get put adopt_started
adopt_activation task turn reading r =
    let found = reading.between r.files in
    elim (get found task.session_id) [
      | none ↦ (false, record r { files = found })
      | some v ↦
          (let (w, adopted) = adopt_started turn reading.now v in
            (
              adopted,
              record r {
                files = if adopted then put task.session_id w found else found;
                fences = if adopted then put task.session_id turn r.fences else r.fences;
              },
            ))
    ]

unfoldable pub own : String → DaemonTask → DaemonRegistry → DaemonRegistry
unfolding put
own turn task r = record r { turn_owners = put turn (some task) r.turn_owners }

-- `clear_pending_turn` on the files; one that is gone is not cleared.
unfoldable pub cleared : DaemonTask → String → Dict Values → Dict Values × Bool
unfolding get put clear_pending_turn
cleared task turn files = elim (get files task.session_id) [
  | none ↦ (files, false)
  | some v ↦ (let (w, done) = clear_pending_turn turn v in (put task.session_id w files, done))
]

-- The lookup of `_expire_pending_turn` after it has lost a race.
unfoldable pub retained : String → String → Option String × DaemonRegistry → Claimed
unfolding get
retained session turn (some reason, r) = (err reason, r)
retained session turn (none, r) = elim (get r.turn_owners turn) [
  | none ↦ (ok (none, some (some session, turn)), r)
  | some owner ↦ (ok (owner, none), r)
]

-- `_expire_pending_turn`
unfoldable pub expire_pending_turn : DaemonTask → String → Reading → DaemonRegistry → Claimed
unfolding remove cleared retained refresh_turn_owners
expire_pending_turn task turn reading r =
    let (files, done) = cleared task turn (reading.between r.files) in
    let written = record r { files = files } in
    if done
    then (
      ok (none, some (some task.session_id, turn)),
      record written { turn_owners = remove turn r.turn_owners },
    )
    else retained task.session_id turn (refresh_turn_owners written)

-- `record_turn_started` on the files; one that is gone is not written.
unfoldable pub started : DaemonTask → String → ℕ → Dict Values → Result (Dict Values)
unfolding get put record_turn_started
started task turn now files = elim (get files task.session_id) [
  | none ↦ ok files
  | some v ↦ elim (record_turn_started turn now v) [
    | err reason ↦ err reason
    | ok w ↦ ok (put task.session_id w files)
  ]
]

-- The recording of a pending turn that started in time.
unfoldable pub record_started : DaemonTask → String → Reading → DaemonRegistry → Claimed
unfolding started own
record_started task turn reading r =
    let found = reading.between r.files in
    elim (started task turn reading.now found) [
      | err reason ↦ (err reason, record r { files = found })
      | ok files ↦ (ok (some task, none), own turn task (record r { files = files }))
    ]

-- The grace of a pending turn is over.
abbrev pub is_overdue : Values → ℕ → Bool
is_overdue v clock = elim v.pending_turn_timed_out_at [
  | none ↦ false
  | some at ↦ ltb (at + pending_grace) clock
]

-- The turn is the one that the activation of the session waits for.
unfoldable pub is_fenced : DaemonTask → String → DaemonRegistry → Bool
unfolding get
is_fenced task turn r = opt_eq (get r.fences task.session_id) (some turn)

abbrev pub may_adopt : Values → Bool
may_adopt v =
    v.enabled
    && v.managed_mode
    && (not v.goal_companion
        && (v.handoff_requested && (is_none v.pending_turn_id && not v.shutdown_requested)))

-- The turn that the session waits for, or a turn of the user that is adopted.
unfoldable pub adopt :
    DaemonTask → String → Values → Reading → DaemonRegistry → Bool × DaemonRegistry
unfolding is_fenced adopt_activation
adopt task turn v reading r =
    if is_fenced task turn r
    then (true, r)
    else if may_adopt v
    then adopt_activation task turn reading r
    else (false, r)

-- `_claim_started` for a turn that the loaded file does not own.
unfoldable pub claim_unowned :
    DaemonTask → Option String → String → Values → Reading → DaemonRegistry → Claimed
unfolding adopt own record_started expire_pending_turn
claim_unowned task thread turn v reading r =
    let (adopted, tried) = adopt task turn v reading r in
    let expired = expire_pending_turn task turn reading tried in
    let recorded = record_started task turn reading tried in
    let asked : Option String = elim thread [ none ↦ some task.session_id | some t ↦ some t ] in
    if adopted
    then (ok (some task, none), own turn task tried)
    else if not (opt_eq v.pending_turn_id (some turn))
    then (ok (none, some (asked, turn)), tried)
    else if is_overdue v reading.clock
    then expired
    else recorded

-- `_claim_started`, for a turn and the task found by the thread or the turn.
unfoldable pub claim_found :
    Option DaemonTask → Option String → String → Reading → DaemonRegistry → Claimed
unfolding get claim_unowned
claim_found none thread turn reading r = (ok (none, some (thread, turn)), r)
claim_found (some task) thread turn reading r = elim (get r.files task.session_id) [
  | none ↦ (ok (none, some (thread, turn)), r)
  | some v ↦
      if opt_eq v.managed_turn_id (some turn)
      then (ok (some task, none), r)
      else claim_unowned task thread turn v reading r
]

-- `_claim_started`
unfoldable pub claim_started :
    Option DaemonTask → AppServerActivity → Reading → DaemonRegistry → Claimed
unfolding claim_found diagnose
claim_started found activity reading r = elim activity.turn_id [
  | none ↦ (ok (none, none), diagnose "app_server_started_turn_missing" r)
  | some turn ↦ claim_found found activity.thread_id turn reading r
]

abbrev pub is_start : AppServerActivity → Bool
is_start activity = elim activity.kind [ turn_started ↦ true | _ ↦ false ]

-- `selected` under the lock, with the owners refreshed.
unfoldable pub select : AppServerActivity → Reading → DaemonRegistry → Claimed
unfolding get claim_started diagnose
select activity reading r = elim activity.thread_id [
  | some thread ↦
      if is_start activity
      then claim_started (get r.tasks thread) activity reading r
      else (ok (get r.tasks thread, none), r)
  | none ↦ elim activity.turn_id [
    | none ↦ (ok (none, none), diagnose "app_server_activity_identity_missing" r)
    | some turn ↦
        (let owner : Option DaemonTask = elim (get r.turn_owners turn) [
          | none ↦ none
          | some o ↦ o
        ] in
          if is_start activity
          then claim_started owner activity reading r
          else if is_none owner
          then (ok (none, none), diagnose "app_server_turn_unowned" r)
          else (ok (owner, none), r))
  ]
]

unfoldable pub after_refresh :
    AppServerActivity → Reading → Option String × DaemonRegistry → Claimed
unfolding select
after_refresh activity reading (some reason, r) = (err reason, r)
after_refresh activity reading (none, r) = select activity reading r

-- The locked body of `selected`; what follows it is `_interrupt_once`, for the turn to interrupt.
unfoldable pub selected_locked : AppServerActivity → Reading → DaemonRegistry → Claimed
unfolding after_refresh refresh_turn_owners
selected_locked activity reading r = after_refresh activity reading (refresh_turn_owners r)
