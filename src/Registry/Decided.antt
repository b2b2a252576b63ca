-- ===== src/Registry/Decided.antt =====
-- Every turn that starts is owned, contested or handed on to be interrupted: the locked body of `selected`
-- of scripts/daemon_registry.py.
use codex_must_work.Prelude.{
  Result-cases, Option-cases, ◌≡◌, ◌⊎◌, inl, inr, String, true, Option, none, some, Dict, get,
  get-put, eq_refl, opt_eq, opt_eq_iff, ok, err, refl, Bool-cases, ltb, length, map, [],
}
use codex_must_work.Manager.{Values}
use codex_must_work.Registry.{DaemonTask, DaemonRegistry, max_turn_correlations}
use codex_must_work.Registry.Owners.{refresh_turn_owners, owners_of}
use codex_must_work.Registry.Routing.{
  is_start, after_refresh, is_overdue, adopt, AppServerActivity, turn_started, Claimed, Reading,
  own, retained, started, cleared, expire_pending_turn, record_started, claim_unowned, claim_found,
  claim_started, select, selected_locked,
}

-- The loaded file of the task owns the turn.
abbrev pub Owns : Dict Values → DaemonTask → String → Type 0
Owns files task turn =
    (v : Values) × (get files task.session_id ≡ some v) × (v.managed_turn_id ≡ some turn)

-- What a claim that returns says of the turn: a task that the registry or the loaded file names as its
-- owner, or this very turn to interrupt, or that the owners were found to contest it.
abbrev pub IsDecided : Dict Values → String → Claimed → Type 0
IsDecided files turn (err reason, r) = Unit {0}
IsDecided files turn (ok (some task, none), r) =
    (get r.turn_owners turn ≡ some (some task)) ⊎ Owns files task turn
IsDecided files turn (ok (some task, some i), r) = ⊥
IsDecided files turn (ok (none, some i), r) = i.1 ≡ turn
IsDecided files turn (ok (none, none), r) = get r.turn_owners turn ≡ some none

own-owner :
    (turn : String) (task : DaemonTask) (r : DaemonRegistry)
    → get (own turn task r).turn_owners turn ≡ some (some task)
unfolding own
own-owner turn task r = rw (get-put r.turn_owners turn turn (some task), eq_refl turn) refl

retained-IsDecided :
    (files : Dict Values) (session turn : String) (o : Option String × DaemonRegistry)
    → IsDecided files turn (retained session turn o)
unfolding retained
retained-IsDecided files session turn (some reason, r) = tt
retained-IsDecided files session turn (none, r) = elim (Option-cases (get r.turn_owners turn)) [
  | inl e ↦ simp (retained, e) refl
  | inr (none, e) ↦ simp (retained, e) refl
  | inr (some task, e) ↦ simp (retained, e) (inl refl)
]

expire_pending_turn-IsDecided :
    (files : Dict Values) (task : DaemonTask) (turn : String) (reading : Reading)
    (r : DaemonRegistry)
    → IsDecided files turn (expire_pending_turn task turn reading r)
unfolding expire_pending_turn
expire_pending_turn-IsDecided files task turn reading r =
    elim (Bool-cases (cleared task turn (reading.between r.files)).1) [
      | inl done ↦ simp done refl
      | inr lost ↦ simp lost (
          retained-IsDecided files task.session_id turn (
            refresh_turn_owners
              (record r { files = (cleared task turn (reading.between r.files)).0 })))
    ]

record_started-IsDecided :
    (files : Dict Values) (task : DaemonTask) (turn : String) (reading : Reading)
    (r : DaemonRegistry)
    → IsDecided files turn (record_started task turn reading r)
unfolding record_started
record_started-IsDecided files task turn reading r =
    elim (Result-cases (started task turn reading.now (reading.between r.files))) [
      | inl (reason, e) ↦ simp (record_started, e) tt
      | inr (after, e) ↦
          simp (record_started, e) (inl (own-owner turn task (record r { files = after })))
    ]

claim_unowned-IsDecided :
    (files : Dict Values) (task : DaemonTask) (thread : Option String) (turn : String) (v : Values)
    (reading : Reading) (r : DaemonRegistry)
    → IsDecided files turn (claim_unowned task thread turn v reading r)
unfolding claim_unowned
claim_unowned-IsDecided files task thread turn v reading r =
    let tried = adopt task turn v reading r in
    elim (Bool-cases tried.0) [
      | inl adopted ↦ simp adopted (inl (own-owner turn task tried.1))
      | inr refused ↦ elim (Bool-cases (opt_eq v.pending_turn_id (some turn))) [
        | inr other ↦ simp refused (simp other refl)
        | inl pending ↦ elim (Bool-cases (is_overdue v reading.clock)) [
          | inl late ↦ simp refused (
              simp pending
                (simp late (expire_pending_turn-IsDecided files task turn reading tried.1)))
          | inr timely ↦ simp refused (
              simp pending (simp timely (record_started-IsDecided files task turn reading tried.1)))
        ]
      ]
    ]

claim_found-IsDecided :
    (found : Option DaemonTask) (thread : Option String) (turn : String) (reading : Reading)
    (r : DaemonRegistry)
    → IsDecided r.files turn (claim_found found thread turn reading r)
unfolding claim_found
claim_found-IsDecided none thread turn reading r = refl
claim_found-IsDecided (some task) thread turn reading r =
    elim (Option-cases (get r.files task.session_id)) [
      | inl e ↦ simp (claim_found, e) refl
      | inr (v, e) ↦ elim (Bool-cases (opt_eq v.managed_turn_id (some turn))) [
        | inl owned ↦
            simp (claim_found, e)
              (simp owned (inr (v, e, (opt_eq_iff v.managed_turn_id (some turn)).0 owned)))
        | inr unowned ↦
            simp (claim_found, e)
              (simp unowned (claim_unowned-IsDecided r.files task thread turn v reading r))
      ]
    ]

claim_started-IsDecided :
    (found : Option DaemonTask) (activity : AppServerActivity) (turn : String) (reading : Reading)
    (r : DaemonRegistry)
    → activity.turn_id ≡ some turn
    → IsDecided r.files turn (claim_started found activity reading r)
unfolding claim_started
claim_started-IsDecided found activity turn reading r h =
    simp (claim_started, h) (claim_found-IsDecided found activity.thread_id turn reading r)

starts : (activity : AppServerActivity) → activity.kind ≡ turn_started → is_start activity ≡ true
starts activity k = rw k refl

select-IsDecided :
    (activity : AppServerActivity) (turn : String) (reading : Reading) (r : DaemonRegistry)
    → activity.kind ≡ turn_started
    → activity.turn_id ≡ some turn
    → IsDecided r.files turn (select activity reading r)
unfolding select
select-IsDecided activity turn reading r k h = elim (Option-cases activity.thread_id) [
  | inl e ↦
      simp (select, e, h)
        (simp (starts activity k) (
          claim_started-IsDecided (elim (get r.turn_owners turn) [ none ↦ none | some o ↦ o ])
            activity turn reading r h))
  | inr (thread, e) ↦
      simp (select, e)
        (simp (starts activity k)
          (claim_started-IsDecided (get r.tasks thread) activity turn reading r h))
]

-- Every started turn is decided under the lock: where a turn start is routed and the call does not raise,
-- either a task gets it that the registry then names as the owner of the turn or whose file owned it,
-- or nobody gets it and this very turn is handed to `_interrupt_once`, or nobody gets it because its
-- owners contest it. What `_interrupt_once` does of it is not stated here: it sends nothing while an
-- attempt is under way or for ten minutes after one that succeeded.
pub selected_locked-IsDecided :
    (activity : AppServerActivity) (turn : String) (reading : Reading) (r : DaemonRegistry)
    → activity.kind ≡ turn_started
    → activity.turn_id ≡ some turn
    → IsDecided r.files turn (selected_locked activity reading r)
unfolding selected_locked after_refresh refresh_turn_owners
selected_locked-IsDecided activity turn reading r k h =
    let owners = owners_of r.files (map (λ e. e.1) r.tasks) [] in
    let refreshed = record r { turn_owners = owners } in
    elim (Bool-cases (ltb max_turn_correlations (length owners))) [
      | inl full ↦ simp full tt
      | inr fits ↦ simp fits (select-IsDecided activity turn reading refreshed k h)
    ]
