-- ===== src/AppServer/Activity/Tests.antt =====
-- A stream whose connection is lost and renewed, and the theorems on it.
use codex_must_work.Prelude.{
  suc, ◌-◌, ◌≤◌, max, ◌≡◌, refl, none, some, List, [], ◌∷◌, keep, leb, count_if, arith,
  if◌then◌else◌,
}
use codex_must_work.AppServer.{
  text, object, Members, no_members, member, get_member, string_member, object_member, turn_id,
}
use codex_must_work.AppServer.Events.{record_message}
use codex_must_work.AppServer.Activity.{
  StreamCall, resets, records, stdout_line, stdout_end, marks_closed, run, new_stream, after,
  max_observations, reset,
}
use codex_must_work.AppServer.Activity.Readers.{is_current, stale_readers_are_silent}
use codex_must_work.AppServer.Activity.Sequence.{found, after-run}
use codex_must_work.AppServer.Activity.Cases.{is_closed}
use codex_must_work.AppServer.Activity.Closing.{closed_once}

abbrev progress : Members
progress = member "method" (text "item/agentMessage/delta") (
    member "params" (object (member "threadId" (text "s") (member "turnId" (text "a") no_members)))
      no_members)

-- The first connection is lost while its readers still have lines of it.
abbrev script : List StreamCall
script =
    records 1 2 progress
    ∷ marks_closed "client_closed"
    ∷ resets
    ∷ stdout_line 3 4 progress 0
    ∷ stdout_line 5 6 progress 1
    ∷ stdout_end "resident_app_server_exited" 0
    ∷ stdout_end "resident_app_server_exited" 1
    ∷ []

script_sequence : (run new_stream script).1.sequence ≡ 4
unfolding run record_message string_member object_member get_member turn_id
script_sequence = refl

script_losses : count_if is_closed (run new_stream script).0 ≡ 2
unfolding run record_message string_member object_member get_member turn_id
script_losses = refl

after-run_example : found (after 2 (run new_stream script).1) ≡ (
    if leb (run new_stream script).1.sequence 2
    then none
    else some (suc (max 2 ((run new_stream script).1.sequence - max_observations))))
after-run_example = after-run script 2

reset_generation : 1 ≤ (reset new_stream).generation
unfolding reset
reset_generation = omega arith

stale_readers_are_silent_example :
    run (reset new_stream) script ≡ run (reset new_stream) (keep (is_current 1) script)
stale_readers_are_silent_example =
    stale_readers_are_silent 1 (reset new_stream) script reset_generation

closed_once_example :
    count_if is_closed (run new_stream script).0 ≤ suc (run new_stream script).1.generation
closed_once_example = closed_once script
