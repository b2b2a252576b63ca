-- ===== src/Mcp/Answers.antt =====
-- Whom the server answers, and which objects it reads.
use codex_must_work.Prelude.{
  ℕ, suc, ◌≤◌, ◌≡◌, refl, ap, ◌∙◌, sym, subst, String, Bool, true, not, ◌&&◌, Option, none, some,
  List, [], ◌∷◌, ◌++◌, ltb, length, str_eq, eq_iff, is_none, if_cases, Result, ok, err, arith,
  Bool-cases, inl, inr, le→ltb,
}
use mathlib.Core.List.{append_assoc, append-nil}
use codex_must_work.Mcp.{
  Value, object, Members, no_members, member, get_member, has_control_tool_shape,
  validate_structure,
}
use codex_must_work.Mcp.Structure.{size, is_within, is_shaped_within, validate_structure-is_within}
use codex_must_work.Mcp.Requests.{
  fault, invalid_request, loaded, RequestId, Decoded, max_raw_line_bytes, max_object_members,
  decode_request, decode_loaded, decode_value, decode_checked, decode_object, decode_call, read_id,
  is_text, read_method, read_params, add_member, pairs_of, names_distinct, is_name, add_pairs,
  object_pairs,
}

module _ (utf8_bytes : String → Option ℕ) where
  -- The identifier of the answer that follows.
  abbrev pub answers_to : Decoded utf8_bytes → Option RequestId
  answers_to (inl request) = request.request_id
  answers_to (inr f) = f.request_id

  decode_call-id :
      (method : Option String) (params : Option Members) (id : Option RequestId)
      (notification : Bool)
      → answers_to (decode_call utf8_bytes method params id notification) ≡ id
  unfolding decode_call
  decode_call-id none params id notification = refl
  decode_call-id (some method) none id notification = refl
  decode_call-id (some method) (some params) id notification = refl

  decode_object-id :
      (values : Members) (id : Option RequestId) (notification : Bool)
      → answers_to (decode_object utf8_bytes values (some (id, notification))) ≡ id
  unfolding decode_object
  decode_object-id values id notification =
      if_cases (λ (r : Decoded utf8_bytes). answers_to r ≡ id)
        (not (is_text utf8_bytes "2.0" (get_member values "jsonrpc")))
        (fault utf8_bytes invalid_request id) _ (λ _. refl)
        (λ _.
          decode_call-id (read_method utf8_bytes (get_member values "method"))
            (read_params utf8_bytes (get_member values "params")) id notification)

  within-checked :
      (values : Members) (allow : Bool)
      → has_control_tool_shape (object values) ≡ ok allow
      → is_within utf8_bytes allow (object values) 1 [] ≡ true
      → validate_structure utf8_bytes (suc (size (object values))) (object values) ≡ ok (some true)
  within-checked values allow shape valid =
      validate_structure-is_within utf8_bytes (object values)
      ∙ ap (is_shaped_within utf8_bytes (object values)) shape
      ∙ ap (λ b. ok (some b)) valid

  -- Once the identifier of a request was read, the request is accepted or refused with an answer to
  -- that identifier, whether it is refused for its version, its method or its parameters: for any
  -- object within the limits whose shape can be asked for, on a line within its own limit.
  pub decode_request-id :
      (bytes : ℕ) (values : Members) (allow : Bool) (id : Option RequestId) (notification : Bool)
      → bytes ≤ max_raw_line_bytes
      → has_control_tool_shape (object values) ≡ ok allow
      → is_within utf8_bytes allow (object values) 1 [] ≡ true
      → read_id (get_member values "id") ≡ some (id, notification)
      → (answer : Decoded utf8_bytes) × (decode_request utf8_bytes
            (some bytes)
            (loaded (object values))
          ≡ ok answer)
        × (answers_to answer ≡ id)
  unfolding decode_request decode_loaded decode_value decode_checked
  decode_request-id bytes values allow id notification short shape valid known =
      let answer = decode_object utf8_bytes values (some (id, notification)) in
      (
        answer,
        simp (le→ltb max_raw_line_bytes bytes short) (
            ap (decode_checked utf8_bytes values) (within-checked values allow shape valid)
            ∙ ap (λ o. ok (decode_object utf8_bytes values o)) known),
        decode_object-id values id notification,
      )

  -- Where the question for the shape raises, so does the whole call.
  unhashable_name :
      (bytes : ℕ) (values : Members)
      → bytes ≤ max_raw_line_bytes
      → has_control_tool_shape (object values) ≡ err "TypeError"
      → decode_request utf8_bytes (some bytes) (loaded (object values)) ≡ err "TypeError"
  unfolding decode_request decode_loaded decode_value decode_checked
  unhashable_name bytes values short shape = simp (le→ltb max_raw_line_bytes bytes short) (
      ap (decode_checked utf8_bytes values) (
        validate_structure-is_within utf8_bytes (object values)
        ∙ ap (is_shaped_within utf8_bytes (object values)) shape))

  pairs_of-add_member :
      (m : Members) (k : String) (v : Value)
      → pairs_of (add_member m k v) ≡ pairs_of m ++ ((k, v) ∷ [])
  unfolding pairs_of add_member
  pairs_of-add_member no_members k v = refl
  pairs_of-add_member (member j w rest) k v = ap (λ ps. (j, w) ∷ ps) (pairs_of-add_member rest k v)

  get_member-add_member :
      (m : Members) (k j : String) (v : Value)
      → is_none (get_member (add_member m k v) j) ≡ (is_none (get_member m j) && not (str_eq k j))
  unfolding get_member add_member
  get_member-add_member no_members k j v = ground arith
  get_member-add_member (member i w rest) k j v = ground (arith, get_member-add_member rest k j v)

  names_distinct-add_member :
      (m : Members) (k : String) (v : Value)
      → names_distinct m ≡ true
      → is_none (get_member m k) ≡ true
      → names_distinct (add_member m k v) ≡ true
  unfolding names_distinct get_member add_member
  names_distinct-add_member no_members k v d h = refl
  names_distinct-add_member (member j w rest) k v d h = ground (
    arith,
    get_member-add_member rest k j v,
    eq_iff j k,
    eq_iff k j,
    names_distinct-add_member rest k v,
  )

  -- The members that are added come behind those that are there, in their order.
  abbrev AddsAll : List (String × Value) → Members → Result Members → Type 0
  AddsAll pairs values (err reason) = Unit
  AddsAll pairs values (ok m) = (pairs_of m ≡ pairs_of values ++ pairs) × (names_distinct m ≡ true)

  after_first :
      (k : String) (v : Value) (pairs : List (String × Value)) (values : Members)
      (r : Result Members)
      → AddsAll pairs (add_member values k v) r
      → AddsAll ((k, v) ∷ pairs) values r
  after_first k v pairs values (err reason) a = tt
  after_first k v pairs values (ok m) a = (
    a.0
        ∙ ap (λ ps. ps ++ pairs) (pairs_of-add_member values k v)
        ∙ append_assoc (pairs_of values) ((k, v) ∷ []) pairs,
    a.1,
  )

  add_pairs-AddsAll :
      (pairs : List (String × Value)) (values : Members)
      → names_distinct values ≡ true
      → AddsAll pairs values (add_pairs utf8_bytes pairs values)
  unfolding add_pairs
  add_pairs-AddsAll [] values d = (sym (append-nil (pairs_of values)), d)
  add_pairs-AddsAll ((k, v) ∷ pairs) values d =
      if_cases (AddsAll ((k, v) ∷ pairs) values) (not (is_name utf8_bytes k))
        (err "member_name_limit") _ (λ _. tt)
        (λ _.
          if_cases (AddsAll ((k, v) ∷ pairs) values) (not (is_none (get_member values k)))
            (err "duplicate_member") _ (λ _. tt)
            (λ fresh.
              after_first k v pairs values (add_pairs utf8_bytes pairs (add_member values k v)) (
                add_pairs-AddsAll pairs (add_member values k v)
                  (names_distinct-add_member values k v d (ground arith)))))

  starts : names_distinct no_members ≡ true
  unfolding names_distinct
  starts = refl

  -- An object that is read has its pairs as its members, in their order, no name twice, and at most
  -- 128 of them.
  pub read_object :
      (pairs : List (String × Value)) (m : Members)
      → object_pairs utf8_bytes pairs ≡ ok m
      → (pairs_of m ≡ pairs) × (names_distinct m ≡ true) × (length pairs ≤ max_object_members)
  unfolding object_pairs pairs_of
  read_object pairs m e = elim (Bool-cases (ltb max_object_members (length pairs))) [
    | inl many ↦ cc (rw many at e)
    | inr few ↦
        let added : AddsAll pairs no_members (ok m) =
          subst (AddsAll pairs no_members) (rw few at e)
            (add_pairs-AddsAll pairs no_members starts) in
        (added.0, added.1, ground arith)
  ]

  -- None of the names is there yet.
  abbrev all_absent : Members → List (String × Value) → Bool
  all_absent values [] = true
  all_absent values ((k, v) ∷ pairs) = is_none (get_member values k) && all_absent values pairs

  abbrev pub are_names : List (String × Value) → Bool
  are_names [] = true
  are_names ((k, v) ∷ pairs) = is_name utf8_bytes k && are_names pairs

  abbrev is_absent : String → List (String × Value) → Bool
  is_absent k [] = true
  is_absent k ((j, w) ∷ pairs) = not (str_eq k j) && is_absent k pairs

  abbrev keys_distinct : List (String × Value) → Bool
  keys_distinct [] = true
  keys_distinct ((k, v) ∷ pairs) = is_absent k pairs && keys_distinct pairs

  all_absent-add_member :
      (values : Members) (k : String) (v : Value) (pairs : List (String × Value))
      → all_absent values pairs ≡ true
      → is_absent k pairs ≡ true
      → all_absent (add_member values k v) pairs ≡ true
  all_absent-add_member values k v [] a b = refl
  all_absent-add_member values k v ((j, w) ∷ pairs) a b =
      ground (arith, get_member-add_member values k j v, all_absent-add_member values k v pairs)

  add_pairs-total :
      (pairs : List (String × Value)) (values : Members)
      → keys_distinct pairs ≡ true
      → are_names pairs ≡ true
      → all_absent values pairs ≡ true
      → (m : Members) × (add_pairs utf8_bytes pairs values ≡ ok m)
  unfolding add_pairs
  add_pairs-total [] values d n a = (values, refl)
  add_pairs-total ((k, v) ∷ pairs) values d n a =
      let (m, e) =
        add_pairs-total pairs (add_member values k v) (ground arith) (ground arith)
          (all_absent-add_member values k v pairs (ground arith) (ground arith)) in
      let named : is_name utf8_bytes k ≡ true = ground arith in
      let fresh : is_none (get_member values k) ≡ true = ground arith in
      (m, simp (named, fresh, e) refl)

  none_absent : (pairs : List (String × Value)) → all_absent no_members pairs ≡ true
  unfolding get_member
  none_absent [] = refl
  none_absent ((k, v) ∷ pairs) = none_absent pairs

  absent_name : (m : Members) (k : String) → is_absent k (pairs_of m) ≡ is_none (get_member m k)
  unfolding pairs_of get_member
  absent_name no_members k = refl
  absent_name (member j w rest) k = ground (arith, eq_iff j k, eq_iff k j, absent_name rest k)

  distinct_names : (m : Members) → keys_distinct (pairs_of m) ≡ names_distinct m
  unfolding pairs_of names_distinct
  distinct_names no_members = refl
  distinct_names (member j w rest) = ground (arith, absent_name rest j, distinct_names rest)

  pairs_of-injective : (m n : Members) → pairs_of m ≡ pairs_of n → m ≡ n
  unfolding pairs_of
  pairs_of-injective no_members no_members e = refl
  pairs_of-injective no_members (member k v rest) e = cc
  pairs_of-injective (member k v rest) no_members e = cc
  pairs_of-injective (member k v rest) (member j w more) e = cc (pairs_of-injective rest more cc)

  -- Every object that names no member twice, whose names have a length within the limit and whose
  -- members are at most 128 is read back from the pairs of its members, in their order.
  pub object_pairs-pairs_of :
      (m : Members)
      → names_distinct m ≡ true
      → are_names (pairs_of m) ≡ true
      → length (pairs_of m) ≤ max_object_members
      → object_pairs utf8_bytes (pairs_of m) ≡ ok m
  unfolding object_pairs
  object_pairs-pairs_of m d n few =
      let (q, e) =
        add_pairs-total (pairs_of m) no_members (distinct_names m ∙ d) n
          (none_absent (pairs_of m)) in
      let read : object_pairs utf8_bytes (pairs_of m) ≡ ok q =
        simp (le→ltb max_object_members (length (pairs_of m)) few) e in
      read ∙ ap ok (pairs_of-injective q m (read_object (pairs_of m) q read).0)
