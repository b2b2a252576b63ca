-- ===== src/Mcp.antt =====
-- scripts/mcp_limits.py and scripts/mcp_protocol.py: what the MCP server accepts of a line that a
-- client sends. The values are those of the JSON reader; of a number it is only asked whether it is
-- an integer and, if not, whether it is finite. The length of a text in UTF-8, if it has one, is a
-- parameter.
pub mod Structure
pub mod Requests
pub mod Answers
mod Tests
use codex_must_work.Prelude.{
  ℕ, suc, zero, ◌+◌, String, Bool, true, false, not, ◌&&◌, ◌||◌, Option, none, some, List, [], ◌∷◌,
  ◌++◌, ltb, ◌==◌, str_eq, is_none, if◌then◌else◌, Result, ok, err,
}

-- `negsuc n` is -(n + 1).
pub data ℤ : Type 0 where
  pos negsuc : ℕ → ℤ

mutual
  pub data Value : Type 0 where
    null : Value
    bool : Bool → Value
    integer : ℤ → Value
    float : Bool → Value
    text : String → Value
    array : Items → Value
    object : Members → Value

  pub data Items : Type 0 where
    no_items : Items
    item : Value → Items → Items

  pub data Members : Type 0 where
    no_members : Members
    member : String → Value → Members → Members

-- `values.get(key)`
unfoldable pub get_member : Members → String → Option Value
get_member no_members key = none
get_member (member k v rest) key = if str_eq k key then some v else get_member rest key

unfoldable pub item_count : Items → ℕ
item_count no_items = 0
item_count (item v rest) = suc (item_count rest)

abbrev pub max_nesting_depth : ℕ
max_nesting_depth = 16

abbrev pub max_array_items : ℕ
max_array_items = 128

abbrev pub max_string_bytes : ℕ
max_string_bytes = 65536

-- One step of a path: a member's name or an item's index.
pub data Step : Type 0 where
  key : String → Step
  index : ℕ → Step

abbrev pub is_key : String → Step → Bool
is_key name (key k) = str_eq k name
is_key name (index i) = false

-- `path == ("params", "arguments", "session_id")`
unfoldable pub is_session_path : List Step → Bool
is_session_path (a ∷ b ∷ c ∷ []) =
    is_key "params" a && (is_key "arguments" b && is_key "session_id" c)
is_session_path _ = false

-- One entry of the stack.
pub record Frame : Type 0 where
  pub value : Value
  pub depth : ℕ
  pub path : List Step

-- Whether the name is one of the set of the tools that authenticate a session. An object and an array
-- cannot be hashed, so the question raises for them.
unfoldable pub is_control_tool : Option Value → Result Bool
is_control_tool (some (text name)) = ok (
    str_eq name "cmw.work_on"
    || str_eq name "cmw.stop"
    || str_eq name "cmw.status"
    || str_eq name "cmw.complete"
    || str_eq name "cmw.settings"
    || str_eq name "cmw.notifications.setup")
is_control_tool (some (array items)) = err "TypeError"
is_control_tool (some (object fields)) = err "TypeError"
is_control_tool _ = ok false

abbrev pub is_call : Option Value → Bool
is_call (some (text method)) = str_eq method "tools/call"
is_call _ = false

abbrev pub is_object : Option Value → Bool
is_object (some (object fields)) = true
is_object _ = false

-- With an answer for the name, the question for the arguments.
abbrev pub with_arguments : Option Value → Result Bool → Result Bool
with_arguments arguments (err reason) = err reason
with_arguments arguments (ok known) = ok (known && is_object arguments)

-- The parameters of a call of a control tool.
unfoldable pub are_control_params : Option Value → Result Bool
unfolding is_control_tool get_member
are_control_params (some (object params)) =
    with_arguments (get_member params "arguments") (is_control_tool (get_member params "name"))
are_control_params _ = ok false

-- `has_control_tool_shape`
unfoldable pub has_control_tool_shape : Value → Result Bool
unfolding are_control_params get_member
has_control_tool_shape (object root) =
    if is_call (get_member root "method")
    then are_control_params (get_member root "params")
    else ok false
has_control_tool_shape _ = ok false

-- `stack.append` for every member of an object and every item of an array; the top comes first.
unfoldable pub push_members : Members → ℕ → List Step → List Frame → List Frame
push_members no_members depth path stack = stack
push_members (member name v rest) depth path stack =
    push_members rest depth path
      (record { value = v; depth = depth; path = path ++ (key name ∷ []) } ∷ stack)

unfoldable pub push_items : Items → ℕ → ℕ → List Step → List Frame → List Frame
push_items no_items i depth path stack = stack
push_items (item v rest) i depth path stack =
    push_items rest (suc i) depth path
      (record { value = v; depth = depth; path = path ++ (index i ∷ []) } ∷ stack)

module _ (utf8_bytes : String → Option ℕ) where
  -- `_validate_string`: whether it does not raise.
  unfoldable pub validate_string : String → List Step → Bool → Bool
  unfolding is_session_path
  validate_string s path allow_auth_overlong = elim (utf8_bytes s) [
    | none ↦ false
    | some n ↦ not (ltb max_string_bytes n) || (allow_auth_overlong && is_session_path path)
  ]

  -- What one round of the loop does with the value that it popped: `none` if it raises, otherwise
  -- the stack with the value's children.
  unfoldable pub visit : Bool → Value → ℕ → List Step → List Frame → Option (List Frame)
  unfolding validate_string push_members push_items item_count
  visit allow null depth path stack = some stack
  visit allow (bool b) depth path stack = some stack
  visit allow (integer n) depth path stack = some stack
  visit allow (float finite) depth path stack = if finite then some stack else none
  visit allow (text s) depth path stack = if validate_string s path allow then some stack else none
  visit allow (object fields) depth path stack = some (push_members fields (suc depth) path stack)
  visit allow (array items) depth path stack =
      if ltb max_array_items (item_count items)
      then none
      else some (push_items items 0 (suc depth) path stack)

  -- The loop of `validate_structure`, with fuel: whether it ends without raising, or nothing if
  -- the fuel runs out.
  unfoldable pub validate_loop : ℕ → Bool → List Frame → Option Bool
  unfolding visit
  validate_loop zero allow stack = none
  validate_loop (suc fuel) allow [] = some true
  validate_loop (suc fuel) allow (frame ∷ stack) =
      if ltb max_nesting_depth frame.depth
      then some false
      else elim (visit allow frame.value frame.depth frame.path stack) [
        | none ↦ some false
        | some next ↦ validate_loop fuel allow next
      ]

  -- The loop from the root on, with whether the shape is that of a control tool's call.
  abbrev pub validate_from : ℕ → Value → Result Bool → Result (Option Bool)
  validate_from fuel root (err reason) = err reason
  validate_from fuel root (ok allow) =
      ok (validate_loop fuel allow (record { value = root; depth = 1; path = [] } ∷ []))

  -- `validate_structure`, with fuel; `err` where it raises something else than `ValueError`.
  unfoldable pub validate_structure : ℕ → Value → Result (Option Bool)
  unfolding validate_loop has_control_tool_shape
  validate_structure fuel root = validate_from fuel root (has_control_tool_shape root)
