-- ===== src/Mcp/Requests.antt =====
-- `object_pairs` of scripts/mcp_limits.py and `decode_request` of scripts/mcp_protocol.py. An error
-- code stands without its minus sign; the diagnostic text of a syntax error is left out.
use codex_must_work.Prelude.{
  ℕ, suc, String, Bool, true, false, not, ◌&&◌, Option, none, some, List, [], ◌∷◌, ltb, length,
  str_eq, is_none, if◌then◌else◌, Result, ok, err, inl, inr, ◌⊎◌,
}
use codex_must_work.Mcp.{
  ℤ, Value, null, integer, text, object, Members, no_members, member, get_member, max_string_bytes,
  validate_structure,
}
use codex_must_work.Mcp.Structure.{size}

abbrev pub max_object_members : ℕ
max_object_members = 128

abbrev pub max_raw_line_bytes : ℕ
max_raw_line_bytes = 1048576

-- `values[key] = value` for a key that is not there: behind the others.
unfoldable pub add_member : Members → String → Value → Members
add_member no_members name v = member name v no_members
add_member (member k w rest) name v = member k w (add_member rest name v)

-- The members, in their order.
unfoldable pub pairs_of : Members → List (String × Value)
pairs_of no_members = []
pairs_of (member k v rest) = (k, v) ∷ pairs_of rest

-- No member is named twice.
unfoldable pub names_distinct : Members → Bool
unfolding get_member
names_distinct no_members = true
names_distinct (member k v rest) = is_none (get_member rest k) && names_distinct rest

-- What the JSON reader makes of a line: a value, or one of the errors that are told apart.
pub data Loaded : Type 0 where
  loaded : Value → Loaded
  refused : Loaded
  unreadable : Loaded

pub data RequestId : Type 0 where
  number : ℤ → RequestId
  name : String → RequestId

pub record JsonRpcRequest : Type 0 where
  pub method : String
  pub params : Members
  pub request_id : Option RequestId
  pub is_notification : Bool

pub record Fault : Type 0 where
  pub code : ℕ
  pub request_id : Option RequestId

abbrev pub invalid_request : ℕ
invalid_request = 32600

abbrev pub parse_error : ℕ
parse_error = 32700

-- `_request_id`: the identifier and whether there is none, or nothing if it raises.
unfoldable pub read_id : Option Value → Option (Option RequestId × Bool)
read_id none = some (none, true)
read_id (some null) = some (none, false)
read_id (some (integer n)) = some (some (number n), false)
read_id (some (text s)) = if str_eq s "" then none else some (some (name s), false)
read_id (some _) = none

module _ (utf8_bytes : String → Option ℕ) where
  -- Whether the name can be encoded within the limit.
  abbrev pub is_name : String → Bool
  is_name k = elim (utf8_bytes k) [ none ↦ false | some n ↦ not (ltb max_string_bytes n) ]

  -- The loop of `object_pairs`, with the members so far.
  unfoldable pub add_pairs : List (String × Value) → Members → Result Members
  unfolding add_member get_member
  add_pairs [] values = ok values
  add_pairs ((k, v) ∷ pairs) values =
      let rest = add_pairs pairs (add_member values k v) in
      if not (is_name k)
      then err "member_name_limit"
      else if not (is_none (get_member values k))
      then err "duplicate_member"
      else rest

  -- `object_pairs`
  unfoldable pub object_pairs : List (String × Value) → Result Members
  unfolding add_pairs
  object_pairs pairs =
      if ltb max_object_members (length pairs)
      then err "member_limit"
      else add_pairs pairs no_members

  -- A request, or the error that is raised.
  abbrev pub Decoded : Type 0
  Decoded = JsonRpcRequest ⊎ Fault

  abbrev pub fault : ℕ → Option RequestId → Decoded
  fault code id = inr (record { code = code; request_id = id })

  abbrev pub is_text : String → Option Value → Bool
  is_text s (some (text t)) = str_eq t s
  is_text s _ = false

  -- `values.get("params", {})` as an object.
  abbrev pub read_params : Option Value → Option Members
  read_params none = some no_members
  read_params (some (object fields)) = some fields
  read_params (some _) = none

  -- A text that is not empty.
  abbrev pub read_method : Option Value → Option String
  read_method (some (text s)) = if str_eq s "" then none else some s
  read_method _ = none

  -- The method and the parameters of a request with this identifier.
  unfoldable pub decode_call : Option String → Option Members → Option RequestId → Bool → Decoded
  decode_call none params id notification = fault invalid_request id
  decode_call (some method) none id notification = fault invalid_request id
  decode_call (some method) (some params) id notification =
      inl (record {
        method = method;
        params = params;
        request_id = id;
        is_notification = notification;
      })

  -- An object within the limits, with what is read of its identifier.
  unfoldable pub decode_object : Members → Option (Option RequestId × Bool) → Decoded
  unfolding decode_call get_member
  decode_object values none = fault invalid_request none
  decode_object values (some (id, notification)) =
      if not (is_text "2.0" (get_member values "jsonrpc"))
      then fault invalid_request id
      else decode_call (read_method (get_member values "method"))
          (read_params (get_member values "params")) id notification

  -- What follows the check of the structure; what it raises beside `ValueError` escapes.
  unfoldable pub decode_checked : Members → Result (Option Bool) → Result Decoded
  unfolding decode_object read_id get_member
  decode_checked values (err reason) = err reason
  decode_checked values (ok (some true)) =
      ok (decode_object values (read_id (get_member values "id")))
  decode_checked values (ok _) = ok (fault invalid_request none)

  unfoldable pub decode_value : Value → Result Decoded
  unfolding decode_checked
  decode_value (object values) =
      decode_checked values
        (validate_structure utf8_bytes (suc (size (object values))) (object values))
  decode_value _ = ok (fault invalid_request none)

  -- What comes of the line's JSON.
  unfoldable pub decode_loaded : Loaded → Result Decoded
  unfolding decode_value
  decode_loaded (loaded value) = decode_value value
  decode_loaded refused = ok (fault invalid_request none)
  decode_loaded unreadable = ok (fault parse_error none)

  -- `decode_request`, with the length of the line in UTF-8, if it has one; `err` where it raises
  -- something else than `JsonRpcError`.
  unfoldable pub decode_request : Option ℕ → Loaded → Result Decoded
  unfolding decode_loaded
  decode_request none line = ok (fault parse_error none)
  decode_request (some bytes) line =
      if ltb max_raw_line_bytes bytes then ok (fault invalid_request none) else decode_loaded line
