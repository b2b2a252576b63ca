-- ===== src/Diagnostics/Identities.antt =====
-- The identities among the events of a log.
use codex_must_work.Prelude.{
  inl, inr, Bool-cases, inl, Bool-cases, if◌then◌else◌, ◌≡◌, refl, String, Bool, true, false, not,
  ◌||◌, ◌&&◌, Option, none, some, List, [], ◌∷◌, ◌++◌, opt_eq, any, arith, eq_iff,
}
use codex_must_work.Diagnostics.{
  file_bytes, max_log_bytes, ltb, Result, err, searched, search_files, ok, is_known, ℕ,
  DiagnosticEvent, Log, has_id, contains_event_id,
}

-- All files in one, oldest first.
unfoldable pub joined_backups : List (List DiagnosticEvent) → List DiagnosticEvent
joined_backups [] = []
joined_backups (file ∷ older) = joined_backups older ++ file

unfoldable pub retained : Log → List DiagnosticEvent
unfolding joined_backups
retained log = joined_backups log.backups ++ log.current

-- Two identities, if there are two, are the same.
abbrev clashes : Option String → Option String → Bool
clashes none b = false
clashes (some a) b = opt_eq b (some a)

clashes_sym : (a b : Option String) → clashes a b ≡ clashes b a
clashes_sym none none = refl
clashes_sym none (some b) = refl
clashes_sym (some a) none = refl
clashes_sym (some a) (some b) = ground (arith, eq_iff a b, eq_iff b a)

-- An identity is among those of the events.
abbrev pub finds : Option String → List DiagnosticEvent → Bool
finds o [] = false
finds o (e ∷ events) = clashes o e.event_id || finds o events

-- No identity stands twice.
abbrev pub ids_distinct : List DiagnosticEvent → Bool
ids_distinct [] = true
ids_distinct (e ∷ events) = not (finds e.event_id events) && ids_distinct events

pub finds-append :
    (o : Option String) (xs ys : List DiagnosticEvent)
    → finds o (xs ++ ys) ≡ (finds o xs || finds o ys)
finds-append o [] ys = refl
finds-append o (x ∷ xs) ys = ground (arith, finds-append o xs ys)

finds-any : (id : String) (xs : List DiagnosticEvent) → finds (some id) xs ≡ any (has_id id) xs
finds-any id [] = refl
finds-any id (x ∷ xs) = ground (arith, finds-any id xs)

finds-none : (xs : List DiagnosticEvent) → finds none xs ≡ false
finds-none [] = refl
finds-none (x ∷ xs) = finds-none xs

module _ (encoded_bytes : DiagnosticEvent → ℕ) where
  searched-finds :
      (id : String) (long : Bool) (file : List DiagnosticEvent)
      (files : List (List DiagnosticEvent)) (rest : Result Bool)
      → (rest ≡ ok false → finds (some id) (joined_backups files) ≡ false)
      → searched encoded_bytes id (if long then err "log_size_invalid" else ok file) rest ≡ ok false
      → finds (some id) (joined_backups files ++ file) ≡ false
  searched-finds id true file files rest f h = cc
  searched-finds id false file files rest f h = elim (Bool-cases (any (has_id id) file)) [
    | inl here ↦ cc (rw here at h)
    | inr absent ↦ ground (
      arith,
      finds-append (some id) (joined_backups files) file,
      finds-any id file,
      f (rw absent at h),
    )
  ]

  -- A search that ends without finding the identity has looked at every file.
  search_files-finds :
      (id : String) (files : List (List DiagnosticEvent))
      → search_files encoded_bytes id files ≡ ok false
      → finds (some id) (joined_backups files) ≡ false
  unfolding search_files joined_backups
  search_files-finds id [] h = refl
  search_files-finds id (file ∷ files) h =
      searched-finds id (ltb max_log_bytes (file_bytes encoded_bytes file)) file files
        (search_files encoded_bytes id files) (search_files-finds id files) h

  -- An event that is not known has a new identity, if it has one.
  pub unknown-finds :
      (e : DiagnosticEvent) (log : Log)
      → is_known encoded_bytes e log ≡ ok false
      → finds e.event_id (retained log) ≡ false
  unfolding retained contains_event_id
  unknown-finds e log h = go e.event_id h
    where
      go :
          (o : Option String)
          → (elim o [ none ↦ ok false | some id ↦ contains_event_id encoded_bytes log id ])
            ≡ ok false
          → finds o (retained log) ≡ false
      go none h = finds-none (joined_backups log.backups ++ log.current)
      go (some id) h = search_files-finds id (log.current ∷ log.backups) h

pub ids_distinct-rest :
    (xs ys : List DiagnosticEvent) → ids_distinct (xs ++ ys) ≡ true → ids_distinct ys ≡ true
ids_distinct-rest [] ys d = d
ids_distinct-rest (x ∷ xs) ys d = ids_distinct-rest xs ys (ground arith)

pub ids_distinct-append :
    (xs : List DiagnosticEvent) (e : DiagnosticEvent)
    → ids_distinct xs ≡ true
    → finds e.event_id xs ≡ false
    → ids_distinct (xs ++ (e ∷ [])) ≡ true
ids_distinct-append [] e d h = refl
ids_distinct-append (x ∷ xs) e d h = ground (
  arith,
  finds-append x.event_id xs (e ∷ []),
  clashes_sym x.event_id e.event_id,
  ids_distinct-append xs e,
)
