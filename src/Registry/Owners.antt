-- ===== src/Registry/Owners.antt =====
-- `_refresh_turn_owners` of scripts/daemon_registry.py: which task owns a turn.
use codex_must_work.Prelude.{
  is_none, not, eq_iff, ap, sym, ◌≡◌, String, Option, none, some, List, [], ◌∷◌, ◌++◌, map, Dict,
  get, put, has, get-put, ltb, length, keep, str_eq, if◌then◌else◌, arith, refl, Bool-cases, inl,
  inr,
}
use codex_must_work.Manager.{Values}
use codex_must_work.Registry.{DaemonTask, DaemonRegistry, max_turn_correlations}

abbrev listed : Option String → List String
listed none = []
listed (some turn) = turn ∷ []

-- The turns that a task's file names, the pending one first.
unfoldable pub turns_of : Dict Values → DaemonTask → List String
unfolding get
turns_of files task =
    if task.managed
    then elim (get files task.session_id) [
      | none ↦ []
      | some v ↦ listed v.pending_turn_id ++ listed v.managed_turn_id
    ]
    else []

unfoldable pub add_turns :
    DaemonTask → List String → Dict (Option DaemonTask) → Dict (Option DaemonTask)
unfolding put has
add_turns task [] owners = owners
add_turns task (turn ∷ turns) owners =
    add_turns task turns (put turn (if has owners turn then none else some task) owners)

unfoldable pub owners_of :
    Dict Values → List DaemonTask → Dict (Option DaemonTask) → Dict (Option DaemonTask)
unfolding turns_of add_turns
owners_of files [] owners = owners
owners_of files (task ∷ tasks) owners =
    owners_of files tasks (add_turns task (turns_of files task) owners)

-- `_refresh_turn_owners`, with what it raises.
unfoldable pub refresh_turn_owners : DaemonRegistry → Option String × DaemonRegistry
unfolding owners_of
refresh_turn_owners r =
    let owners = owners_of r.files (map (λ e. e.1) r.tasks) [] in
    if ltb max_turn_correlations (length owners)
    then (some "app_server_correlation_capacity", r)
    else (none, record r { turn_owners = owners })

-- Each time that a managed task's file names a turn.
abbrev claims_by : DaemonTask → List String → List (String × DaemonTask)
claims_by task turns = map (λ turn. (turn, task)) turns

abbrev pub claims : Dict Values → List DaemonTask → List (String × DaemonTask)
unfolding turns_of
claims files [] = []
claims files (task ∷ tasks) = claims_by task (turns_of files task) ++ claims files tasks

-- The claims of one turn: nobody claims it, one task does once, or it is contested.
abbrev pub claims_of : String → List (String × DaemonTask) → List (String × DaemonTask)
claims_of turn cs = keep (λ c. str_eq c.0 turn) cs

abbrev pub contested :
    Option (Option DaemonTask) → List (String × DaemonTask) → Option (Option DaemonTask)
contested owner [] = owner
contested none (c ∷ []) = some (some c.1)
contested none (c ∷ (c' ∷ cs)) = some none
contested (some owner) (c ∷ cs) = some none

contested-append :
    (owner : Option (Option DaemonTask)) (xs ys : List (String × DaemonTask))
    → contested owner (xs ++ ys) ≡ contested (contested owner xs) ys
contested-append owner [] ys = refl
contested-append none (c ∷ []) [] = refl
contested-append none (c ∷ []) (c' ∷ ys) = refl
contested-append none (c ∷ (c' ∷ xs)) [] = refl
contested-append none (c ∷ (c' ∷ xs)) (d ∷ ys) = refl
contested-append (some owner) (c ∷ xs) [] = refl
contested-append (some owner) (c ∷ xs) (c' ∷ ys) = refl

claims_of-append :
    (turn : String) (xs ys : List (String × DaemonTask))
    → claims_of turn (xs ++ ys) ≡ claims_of turn xs ++ claims_of turn ys
claims_of-append turn [] ys = refl
claims_of-append turn (c ∷ xs) ys = elim (Bool-cases (str_eq c.0 turn)) [
  | inl same ↦ simp same (ap (λ cs. c ∷ cs) (claims_of-append turn xs ys))
  | inr other ↦ simp other (claims_of-append turn xs ys)
]

contested-first :
    (owner : Option (Option DaemonTask)) (c : String × DaemonTask) (cs : List (String × DaemonTask))
    → contested (some (if not (is_none owner) then none else some c.1)) cs
      ≡ contested owner (c ∷ cs)
contested-first none c [] = refl
contested-first none c (c' ∷ cs) = refl
contested-first (some owner) c [] = refl
contested-first (some owner) c (c' ∷ cs) = refl

get-add_turns :
    (turn : String) (task : DaemonTask) (turns : List String) (owners : Dict (Option DaemonTask))
    → get (add_turns task turns owners) turn
      ≡ contested (get owners turn) (claims_of turn (claims_by task turns))
unfolding add_turns has
get-add_turns turn task [] owners = refl
get-add_turns turn task (t ∷ turns) owners =
    rw (get-add_turns turn task turns _, get-put owners t turn _)
      (elim (Bool-cases (str_eq t turn)) [
        | inl same ↦
            let equal : t ≡ turn = (eq_iff t turn).0 same in
            simp same (
              rw (ap (get owners) equal) (
                contested-first (get owners turn) (t, task)
                  (claims_of turn (claims_by task turns))))
        | inr other ↦ simp other refl
      ])

get-owners_of :
    (turn : String) (files : Dict Values) (tasks : List DaemonTask)
    (owners : Dict (Option DaemonTask))
    → get (owners_of files tasks owners) turn
      ≡ contested (get owners turn) (claims_of turn (claims files tasks))
unfolding owners_of
get-owners_of turn files [] owners = refl
get-owners_of turn files (task ∷ tasks) owners =
    rw
      (
        get-owners_of turn files tasks _,
        get-add_turns turn task (turns_of files task) owners,
        claims_of-append turn (claims_by task (turns_of files task)) (claims files tasks),
      )
      (sym (contested-append (get owners turn) _ _))

-- After a refresh that does not raise, a turn has exactly the owner that the files give it: nobody where
-- no file of a managed task names the turn, the task where one file names it once, and no task, but the
-- mark of a contested turn, where it is named more than once.
refreshed_owner :
    (r : DaemonRegistry) (turn : String)
    → (refresh_turn_owners r).0 ≡ none
    → get (refresh_turn_owners r).1.turn_owners turn
      ≡ contested none (claims_of turn (claims r.files (map (λ e. e.1) r.tasks)))
unfolding refresh_turn_owners
refreshed_owner r turn h = ground (arith, get-owners_of turn r.files (map (λ e. e.1) r.tasks) [])
