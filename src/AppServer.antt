-- ===== src/AppServer.antt =====
-- scripts/app_server_protocol.py: what the daemon reads of the app server's messages. This file has the
-- JSON values and the readers of a message's parameters; a number is not read by any of them.
pub mod Events
pub mod Activity
mod Tests
use codex_must_work.Prelude.{
  ℕ, String, Bool, true, false, not, ◌&&◌, Option, none, some, str_eq, is_none, if◌then◌else◌,
  Result, ok, err,
}
use codex_must_work.Manager.Outcomes.{
  TurnOutcome, completed, interrupted, failed, in_progress, invalid,
}

mutual
  -- `JsonValue`, with an object's members in the order in which they are looked up.
  pub data Json : Type 0 where
    null : Json
    bool : Bool → Json
    number : ℕ → Json
    text : String → Json
    array : Items → Json
    object : Members → Json

  pub data Items : Type 0 where
    no_items : Items
    item : Json → Items → Items

  pub data Members : Type 0 where
    no_members : Members
    member : String → Json → Members → Members

-- `values.get(key)`
unfoldable pub get_member : Members → String → Option Json
get_member no_members key = none
get_member (member k v rest) key = if str_eq k key then some v else get_member rest key

-- `_string`: a text that is not empty.
unfoldable pub string_member : Members → String → Option String
unfolding get_member
string_member values key = elim (get_member values key) [
  | some (text value) ↦ if str_eq value "" then none else some value
  | _ ↦ none
]

-- The member as an object: `isinstance(value, dict)`.
unfoldable pub object_member : Members → String → Option Members
unfolding get_member
object_member values key = elim (get_member values key) [
  | some (object members) ↦ some members
  | _ ↦ none
]

-- `a or b` on the texts of `_string`, which are never empty.
abbrev pub or_else : Option String → Option String → Option String
or_else (some a) b = some a
or_else none b = b

-- `_thread_id`: with a `turn` object its answer is the last word, otherwise there is none.
unfoldable pub thread_id : Members → Option String
unfolding string_member object_member
thread_id params =
    let direct =
      or_else (string_member params "threadId") (string_member params "conversationId") in
    let of_thread : Option String = elim (object_member params "thread") [
      | none ↦ none
      | some thread ↦ string_member thread "id"
    ] in
    let of_turn : Option String = elim (object_member params "turn") [
      | none ↦ none
      | some turn ↦ or_else (string_member turn "threadId") (string_member turn "conversationId")
    ] in
    or_else direct (or_else of_thread of_turn)

-- `_turn_id`
unfoldable pub turn_id : Members → Option String
unfolding string_member object_member
turn_id params =
    or_else (string_member params "turnId")
      (elim (object_member params "turn") [ none ↦ none | some turn ↦ string_member turn "id" ])

-- The value of the enumeration with this text.
unfoldable pub parse_outcome : String → TurnOutcome
parse_outcome status =
    if str_eq status "completed"
    then completed
    else if str_eq status "interrupted"
    then interrupted
    else if str_eq status "failed"
    then failed
    else if str_eq status "inProgress"
    then in_progress
    else invalid

-- `_turn_outcome`
unfoldable pub read_outcome : Members → TurnOutcome
unfolding parse_outcome string_member object_member
read_outcome params = elim (object_member params "turn") [
  | none ↦ invalid
  | some turn ↦ elim (string_member turn "status") [
    | none ↦ invalid
    | some status ↦ parse_outcome status
  ]
]
