-- ===== src/Mcp/Structure.antt =====
-- The loop over a stack against the recursive description of what it accepts.
use codex_must_work.Prelude.{
  ℕ, suc, zero, ◌+◌, ◌<◌, ◌≡◌, refl, ap, ◌∙◌, String, Bool, true, false, not, ◌&&◌, Option, none,
  some, Result, ok, err, List, [], ◌∷◌, ◌++◌, Result, ok, err, ltb, Bool-cases, inl, inr, arith,
}
use codex_must_work.Mcp.{
  Value, null, bool, integer, float, text, array, object, Items, no_items, item, Members,
  no_members, member, item_count, max_nesting_depth, max_array_items, Step, key, index, Frame,
  push_members, push_items, validate_string, visit, validate_loop, validate_structure,
  validate_from, has_control_tool_shape,
}

-- How many values a value holds, itself included.
unfoldable mutual
  pub size : Value → ℕ
  size null = 1
  size (bool b) = 1
  size (integer n) = 1
  size (float finite) = 1
  size (text s) = 1
  size (array items) = suc (size_items items)
  size (object fields) = suc (size_members fields)

  pub size_items : Items → ℕ
  size_items no_items = 0
  size_items (item v rest) = size v + size_items rest

  pub size_members : Members → ℕ
  size_members no_members = 0
  size_members (member name v rest) = size v + size_members rest

module _ (utf8_bytes : String → Option ℕ) where
  -- A value at this depth and path is within the limits, and so is all that it holds.
  unfoldable mutual
    unfolding validate_string item_count

    pub is_within : Bool → Value → ℕ → List Step → Bool
    is_within allow null depth path = not (ltb max_nesting_depth depth)
    is_within allow (bool b) depth path = not (ltb max_nesting_depth depth)
    is_within allow (integer n) depth path = not (ltb max_nesting_depth depth)
    is_within allow (float finite) depth path = not (ltb max_nesting_depth depth) && finite
    is_within allow (text s) depth path =
        not (ltb max_nesting_depth depth) && validate_string utf8_bytes s path allow
    is_within allow (array items) depth path =
        not (ltb max_nesting_depth depth)
        && (not (ltb max_array_items (item_count items))
            && are_items_within allow items 0 (suc depth) path)
    is_within allow (object fields) depth path =
        not (ltb max_nesting_depth depth) && are_members_within allow fields (suc depth) path

    pub are_items_within : Bool → Items → ℕ → ℕ → List Step → Bool
    are_items_within allow no_items i depth path = true
    are_items_within allow (item v rest) i depth path =
        is_within allow v depth (path ++ (index i ∷ []))
        && are_items_within allow rest (suc i) depth path

    pub are_members_within : Bool → Members → ℕ → List Step → Bool
    are_members_within allow no_members depth path = true
    are_members_within allow (member name v rest) depth path =
        is_within allow v depth (path ++ (key name ∷ []))
        && are_members_within allow rest depth path

  abbrev stack_size : List Frame → ℕ
  stack_size [] = 0
  stack_size (f ∷ stack) = size f.value + stack_size stack

  abbrev is_stack_within : Bool → List Frame → Bool
  is_stack_within allow [] = true
  is_stack_within allow (f ∷ stack) =
      is_within allow f.value f.depth f.path && is_stack_within allow stack

  push_members-size :
      (ms : Members) (depth : ℕ) (path : List Step) (stack : List Frame)
      → stack_size (push_members ms depth path stack) ≡ size_members ms + stack_size stack
  unfolding push_members size
  push_members-size no_members depth path stack = omega arith
  push_members-size (member name v rest) depth path stack =
      push_members-size rest depth path _ ∙ omega arith

  push_members-within :
      (allow : Bool) (ms : Members) (depth : ℕ) (path : List Step) (stack : List Frame)
      → is_stack_within allow (push_members ms depth path stack)
        ≡ (are_members_within allow ms depth path && is_stack_within allow stack)
  unfolding push_members is_within
  push_members-within allow no_members depth path stack = refl
  push_members-within allow (member name v rest) depth path stack =
      push_members-within allow rest depth path
        (record { value = v; depth = depth; path = path ++ (key name ∷ []) } ∷ stack)
      ∙ ground arith

  push_items-size :
      (xs : Items) (i depth : ℕ) (path : List Step) (stack : List Frame)
      → stack_size (push_items xs i depth path stack) ≡ size_items xs + stack_size stack
  unfolding push_items size
  push_items-size no_items i depth path stack = omega arith
  push_items-size (item v rest) i depth path stack =
      push_items-size rest (suc i) depth path
        (record { value = v; depth = depth; path = path ++ (index i ∷ []) } ∷ stack)
      ∙ omega arith

  push_items-within :
      (allow : Bool) (xs : Items) (i depth : ℕ) (path : List Step) (stack : List Frame)
      → is_stack_within allow (push_items xs i depth path stack)
        ≡ (are_items_within allow xs i depth path && is_stack_within allow stack)
  unfolding push_items is_within
  push_items-within allow no_items i depth path stack = refl
  push_items-within allow (item v rest) i depth path stack =
      push_items-within allow rest (suc i) depth path
        (record { value = v; depth = depth; path = path ++ (index i ∷ []) } ∷ stack)
      ∙ ground arith

  -- A visit is right: it raises on a value that is not within the limits by itself, and otherwise
  -- what is left to look at is smaller, and within the limits exactly if value and stack are.
  abbrev IsRight : Bool → Frame → List Frame → Option (List Frame) → Type 0
  IsRight allow f stack none = is_within allow f.value f.depth f.path ≡ false
  IsRight allow f stack (some next) =
      (stack_size next < size f.value + stack_size stack)
      × (is_stack_within allow next
          ≡ (is_within allow f.value f.depth f.path && is_stack_within allow stack))

  visit-IsRight :
      (allow : Bool) (v : Value) (depth : ℕ) (path : List Step) (stack : List Frame)
      → ltb max_nesting_depth depth ≡ false
      → IsRight allow
          (record { value = v; depth = depth; path = path })
          stack
          (visit utf8_bytes allow v depth path stack)
  unfolding visit is_within size
  visit-IsRight allow null depth path stack h = (omega arith, simp (h) refl)
  visit-IsRight allow (bool b) depth path stack h = (omega arith, simp (h) refl)
  visit-IsRight allow (integer n) depth path stack h = (omega arith, simp (h) refl)
  visit-IsRight allow (float true) depth path stack h = (omega arith, simp (h) refl)
  visit-IsRight allow (float false) depth path stack h = simp (h) refl
  visit-IsRight allow (text s) depth path stack h =
      elim (Bool-cases (validate_string utf8_bytes s path allow)) [
        | inl valid ↦ simp (valid) (omega arith, simp (h) refl)
        | inr long ↦ simp (long) (simp (h) refl)
      ]
  visit-IsRight allow (object fields) depth path stack h = (
    omega (arith, push_members-size fields (suc depth) path stack),
    simp (h) (push_members-within allow fields (suc depth) path stack),
  )
  visit-IsRight allow (array items) depth path stack h =
      elim (Bool-cases (ltb max_array_items (item_count items))) [
        | inl many ↦ simp (many) (simp (h) refl)
        | inr few ↦ simp (few) (
          omega (arith, push_items-size items 0 (suc depth) path stack),
          simp (h) (push_items-within allow items 0 (suc depth) path stack),
        )
      ]

  too_deep :
      (allow : Bool) (v : Value) (depth : ℕ) (path : List Step)
      → ltb max_nesting_depth depth ≡ true
      → is_within allow v depth path ≡ false
  unfolding is_within
  too_deep allow null depth path h = simp (h) refl
  too_deep allow (bool b) depth path h = simp (h) refl
  too_deep allow (integer n) depth path h = simp (h) refl
  too_deep allow (float finite) depth path h = simp (h) refl
  too_deep allow (text s) depth path h = simp (h) refl
  too_deep allow (array items) depth path h = simp (h) refl
  too_deep allow (object fields) depth path h = simp (h) refl

  visited :
      (fuel : ℕ) (allow : Bool) (f : Frame) (stack : List Frame) (o : Option (List Frame))
      → size f.value + stack_size stack < suc fuel
      → IsRight allow f stack o
      → ((next : List Frame)
          → stack_size next < fuel
          → validate_loop utf8_bytes fuel allow next ≡ some (is_stack_within allow next))
      → (elim o [ none ↦ some false | some next ↦ validate_loop utf8_bytes fuel allow next ])
        ≡ some (is_within allow f.value f.depth f.path && is_stack_within allow stack)
  visited fuel allow f stack none h r ih = rw r refl
  visited fuel allow f stack (some next) h r ih = ih next (omega (arith, r.0)) ∙ ap some r.1

  validate_loop-within :
      (fuel : ℕ) (allow : Bool) (stack : List Frame)
      → stack_size stack < fuel
      → validate_loop utf8_bytes fuel allow stack ≡ some (is_stack_within allow stack)
  unfolding validate_loop
  validate_loop-within zero allow stack h = absurd (omega arith)
  validate_loop-within (suc fuel) allow [] h = refl
  validate_loop-within (suc fuel) allow (f ∷ stack) h =
      elim (Bool-cases (ltb max_nesting_depth f.depth)) [
        | inl deep ↦ simp (deep, too_deep allow f.value f.depth f.path deep) refl
        | inr fine ↦ simp (fine) (
            visited fuel allow f stack (visit utf8_bytes allow f.value f.depth f.path stack) h
              (visit-IsRight allow f.value f.depth f.path stack fine)
              (λ next. validate_loop-within fuel allow next))
      ]

  -- The answer of the recursion, for the shape of the document.
  abbrev pub is_shaped_within : Value → Result Bool → Result (Option Bool)
  is_shaped_within root (err reason) = err reason
  is_shaped_within root (ok allow) = ok (some (is_within allow root 1 []))

  validate_from-is_within :
      (root : Value) (shape : Result Bool)
      → validate_from utf8_bytes (suc (size root)) root shape ≡ is_shaped_within root shape
  validate_from-is_within root (err reason) = refl
  validate_from-is_within root (ok allow) = ap ok (
      validate_loop-within (suc (size root)) allow
        (record { value = root; depth = 1; path = [] } ∷ []) (omega arith)
      ∙ ap some (ground arith))

  -- With as much fuel as the document has values, and one more for the empty stack, the loop ends.
  -- Where the question for the shape raises, so does the whole check; otherwise it accepts exactly the
  -- documents that are within the limits as the recursion over their structure describes them: the
  -- depth of each value, the number of items of each array and the length of each text, but for the
  -- session id of a control tool's call.
  pub validate_structure-is_within :
      (root : Value)
      → validate_structure utf8_bytes (suc (size root)) root
        ≡ is_shaped_within root (has_control_tool_shape root)
  unfolding validate_structure
  validate_structure-is_within root = validate_from-is_within root (has_control_tool_shape root)
