-- ===== src/Mcp/Tests.antt =====
-- A call whose session id is too long for any other member, and the theorems on it. A text named
-- "long" has 70000 bytes, any other has one.
use codex_must_work.Prelude.{
  length, ◌≤◌, ℕ, suc, ◌≡◌, refl, true, false, String, Option, some, [], err, str_eq, if◌then◌else◌,
  ok, arith,
}
use codex_must_work.Mcp.{
  pos, Value, text, integer, object, Members, no_members, member, validate_structure,
  has_control_tool_shape, get_member,
}
use codex_must_work.Mcp.Structure.{size, is_within, is_shaped_within, validate_structure-is_within}
use codex_must_work.Mcp.Requests.{
  number, loaded, Decoded, decode_request, read_id, pairs_of, names_distinct, object_pairs,
}
use codex_must_work.Mcp.Answers.{are_names, answers_to, decode_request-id, object_pairs-pairs_of}

abbrev bytes_of : String → Option ℕ
bytes_of s = if str_eq s "long" then some 70000 else some 1

abbrev arguments : String → Value
arguments name = object (member name (text "long") no_members)

abbrev call_with : String → Members
call_with name = member "id" (integer (pos 7)) (
    member "method" (text "tools/call") (
      member "params"
        (object (member "name" (text "cmw.stop") (member "arguments" (arguments name) no_members)))
        no_members))

overlong_session : validate_structure bytes_of 9 (object (call_with "session_id")) ≡ ok (some true)
unfolding validate_structure
overlong_session = refl

overlong_other : validate_structure bytes_of 9 (object (call_with "reason")) ≡ ok (some false)
unfolding validate_structure
overlong_other = refl

validate_structure-is_within_example :
    validate_structure bytes_of
      (suc (size (object (call_with "reason"))))
      (object (call_with "reason"))
    ≡ is_shaped_within bytes_of
        (object (call_with "reason"))
        (has_control_tool_shape (object (call_with "reason")))
validate_structure-is_within_example =
    validate_structure-is_within bytes_of (object (call_with "reason"))

shaped : has_control_tool_shape (object (call_with "session_id")) ≡ ok true
unfolding has_control_tool_shape
shaped = refl

-- A tool that is named by an object.
abbrev unnamed : Members
unnamed =
    member "method" (text "tools/call")
      (member "params" (object (member "name" (object no_members) no_members)) no_members)

unhashable : validate_structure bytes_of 9 (object unnamed) ≡ err "TypeError"
unfolding validate_structure
unhashable = refl

within : is_within bytes_of true (object (call_with "session_id")) 1 [] ≡ true
unfolding is_within
within = refl

known : read_id (get_member (call_with "session_id") "id") ≡ some (some (number (pos 7)), false)
unfolding read_id get_member
known = refl

-- Without its version the request is refused, and the refusal goes to its sender.
decode_request-id_example :
    (answer : Decoded bytes_of) × (decode_request bytes_of
        (some 90)
        (loaded (object (call_with "session_id")))
      ≡ ok answer)
    × (answers_to bytes_of answer ≡ some (number (pos 7)))
decode_request-id_example =
    decode_request-id bytes_of 90 (call_with "session_id") true (some (number (pos 7))) false
      (omega arith) shaped within known

distinct : names_distinct (call_with "reason") ≡ true
unfolding names_distinct
distinct = refl

named : are_names bytes_of (pairs_of (call_with "reason")) ≡ true
unfolding pairs_of
named = refl

few : length (pairs_of (call_with "reason")) ≤ 128
unfolding pairs_of
few = omega arith

object_pairs-pairs_of_example :
    object_pairs bytes_of (pairs_of (call_with "reason")) ≡ ok (call_with "reason")
object_pairs-pairs_of_example =
    object_pairs-pairs_of bytes_of (call_with "reason") distinct named few
