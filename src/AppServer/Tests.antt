-- ===== src/AppServer/Tests.antt =====
-- Messages of a connection, and the theorems at concrete inputs.
use codex_must_work.Prelude.{◌≡◌, refl, String, false, none, some, List, [], ◌∷◌, get, any}
use codex_must_work.AppServer.{
  text, object, Members, no_members, member, thread_id, turn_id, read_outcome, string_member,
  object_member,
}
use codex_must_work.AppServer.Events.{init, record_message, correlate_turn, thread_for_turn}
use codex_must_work.AppServer.Events.Retention.{IsBounded}
use codex_must_work.AppServer.Events.Bounds.{Call, records, call, calls, calls-init-IsBounded}
use codex_must_work.AppServer.Events.Owners.{concerns, live_owner_kept}
use codex_must_work.Manager.Outcomes.{interrupted}

abbrev turn_params : String → String → Members
turn_params turn status = member "threadId" (text "s") (
    member "turn" (object (member "id" (text turn) (member "status" (text status) no_members)))
      no_members)

abbrev started : String → Members
started turn =
    member "method" (text "turn/started")
      (member "params" (object (turn_params turn "inProgress")) no_members)

abbrev ended : String → Members
ended turn =
    member "method" (text "turn/completed")
      (member "params" (object (turn_params turn "interrupted")) no_members)

-- A turn that starts and ends, and one that goes on.
abbrev script : List Call
script = records 1 (started "a") ∷ records 2 (ended "a") ∷ records 3 (started "b") ∷ []

script_outcome : get (calls init script).turn_outcomes "a" ≡ some interrupted
unfolding calls call record_message get string_member object_member turn_id thread_id read_outcome
script_outcome = refl

script_active : get (calls init script).active_turns "s" ≡ some "b"
unfolding calls call record_message get string_member object_member turn_id thread_id
script_active = refl

calls-init-IsBounded_example : IsBounded (calls init script)
calls-init-IsBounded_example = calls-init-IsBounded script

free : (correlate_turn 5 "s" "c" init).0 ≡ none
unfolding correlate_turn
free = refl

quiet : any (concerns "c") script ≡ false
unfolding turn_id object_member
quiet = refl

live_owner_kept_example :
    (thread_for_turn 900000000 "c" (calls (correlate_turn 5 "s" "c" init).1 script)).0 ≡ some "s"
live_owner_kept_example = live_owner_kept 5 900000000 "s" "c" init script refl free quiet
