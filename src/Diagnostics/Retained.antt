-- ===== src/Diagnostics/Retained.antt =====
-- What the log retains: the newest of the events that were written, each identity once, within the
-- size of three files.
use codex_must_work.Prelude.{
  ℕ, ◌+◌, ◌≤◌, ◌≡◌, refl, ap, ◌∙◌, sym, subst, Bool, true, false, List, [], ◌∷◌, ◌++◌, length, ltb,
  ◌==◌, if◌then◌else◌, if_cases, arith, All, Result, ok, err,
}
use mathlib.Core.List.{append_assoc, append-nil}
use codex_must_work.Diagnostics.{
  append_unless, append_to, DiagnosticEvent, Log, empty_log, two_of, rotate, file_bytes, write,
  is_known, append_diagnostic_once, log_after, was_written, append_all,
}
use codex_must_work.Diagnostics.Identities.{
  joined_backups, retained, finds, finds-append, ids_distinct, unknown-finds, ids_distinct-rest,
  ids_distinct-append,
}

-- A rotation loses the oldest events.
lost : List (List DiagnosticEvent) → List DiagnosticEvent
lost (a ∷ b ∷ []) = b
lost _ = []

rotate-retained :
    (log : Log) → length log.backups ≤ 2 → retained log ≡ lost log.backups ++ retained (rotate log)
unfolding retained rotate joined_backups lost
rotate-retained log h = go log.backups log.current h
  where
    go :
        (files : List (List DiagnosticEvent)) (file : List DiagnosticEvent)
        → length files ≤ 2
        → joined_backups files ++ file
          ≡ lost files ++ (joined_backups (two_of (file ∷ files)) ++ [])
    go [] file h = sym (append-nil file)
    go (a ∷ []) file h = sym (append-nil (a ++ file))
    go (a ∷ b ∷ []) file h = simp (append-nil, append_assoc) refl
    go (a ∷ b ∷ c ∷ more) file h = absurd (omega arith)

module _ (encoded_bytes : DiagnosticEvent → ℕ) (max_bytes : ℕ) where
  pub record IsRetained (written : List DiagnosticEvent) (log : Log) : Type 0 where
    pub forgotten : List DiagnosticEvent
    pub newest : written ≡ forgotten ++ retained log
    pub distinct : ids_distinct (retained log) ≡ true
    pub files : length log.backups ≤ 2
    pub current : file_bytes encoded_bytes log.current ≤ max_bytes
    pub backups : All (λ file. file_bytes encoded_bytes file ≤ max_bytes) log.backups

  file_bytes-append :
      (file : List DiagnosticEvent) (e : DiagnosticEvent)
      → file_bytes encoded_bytes (file ++ (e ∷ []))
        ≡ file_bytes encoded_bytes file + encoded_bytes e
  unfolding file_bytes
  file_bytes-append [] e = omega arith
  file_bytes-append (x ∷ file) e = omega (arith, file_bytes-append file e)

  retained-write :
      (e : DiagnosticEvent) (log : Log)
      → retained (write encoded_bytes e log) ≡ retained log ++ (e ∷ [])
  unfolding retained
  retained-write e log = sym (append_assoc (joined_backups log.backups) log.current (e ∷ []))

  write-IsRetained :
      (written : List DiagnosticEvent) (e : DiagnosticEvent) (log : Log)
      → IsRetained written log
      → finds e.event_id (retained log) ≡ false
      → file_bytes encoded_bytes log.current + encoded_bytes e ≤ max_bytes
      → IsRetained (written ++ (e ∷ [])) (write encoded_bytes e log)
  write-IsRetained written e log r fresh fits = record {
    forgotten = r.forgotten;
    newest =
        ap (λ es. es ++ (e ∷ [])) r.newest
        ∙ append_assoc r.forgotten (retained log) (e ∷ [])
        ∙ ap (λ es. r.forgotten ++ es) (sym (retained-write e log));
    distinct = rw (retained-write e log) (ids_distinct-append (retained log) e r.distinct fresh);
    files = r.files;
    current = omega (arith, file_bytes-append log.current e);
    backups = r.backups;
  }

  two_of-All :
      (P : List DiagnosticEvent → Type 0) (files : List (List DiagnosticEvent))
      → All P files
      → All P (two_of files)
  two_of-All P [] h = tt
  two_of-All P (a ∷ []) h = h
  two_of-All P (a ∷ b ∷ more) h = (h.0, ((h.1).0, tt))

  length-two_of : (files : List (List DiagnosticEvent)) → length (two_of files) ≤ 2
  length-two_of [] = omega arith
  length-two_of (a ∷ []) = omega arith
  length-two_of (a ∷ b ∷ more) = omega arith

  rotate-IsRetained :
      (written : List DiagnosticEvent) (log : Log)
      → IsRetained written log
      → IsRetained written (rotate log)
  unfolding rotate file_bytes
  rotate-IsRetained written log r = record {
    forgotten = r.forgotten ++ lost log.backups;
    newest =
        r.newest
        ∙ ap (λ es. r.forgotten ++ es) (rotate-retained log r.files)
        ∙ sym (append_assoc r.forgotten (lost log.backups) (retained (rotate log)));
    distinct =
        ids_distinct-rest (lost log.backups) (retained (rotate log))
          (subst (λ es. ids_distinct es ≡ true) (rotate-retained log r.files) r.distinct);
    files = length-two_of (log.current ∷ log.backups);
    current = omega arith;
    backups =
        two_of-All (λ file. file_bytes encoded_bytes file ≤ max_bytes) (log.current ∷ log.backups)
          (r.current, r.backups);
  }

  -- After a call: what was written, and the log.
  abbrev Goes : List DiagnosticEvent → DiagnosticEvent → Log → Result (Bool × Log) → Type 0
  Goes written e log result =
      IsRetained (written ++ (if was_written encoded_bytes result then e ∷ [] else []))
        (log_after encoded_bytes log result)

  append_diagnostic_once-IsRetained :
      (written : List DiagnosticEvent) (e : DiagnosticEvent) (log : Log)
      → IsRetained written log
      → Goes written e log (append_diagnostic_once encoded_bytes max_bytes e log)
  unfolding append_diagnostic_once
  append_diagnostic_once-IsRetained written e log r =
      if_cases (Goes written e log) (max_bytes == 0) (err "max_bytes_invalid") _ (λ _. as_before)
        (λ _.
          if_cases (Goes written e log) (ltb max_bytes (encoded_bytes e))
            (err "record_exceeds_limit") _ (λ _. as_before)
            (λ small. searched_for (is_known encoded_bytes e log) refl small))
    where
      as_before : IsRetained (written ++ []) log
      as_before = subst (λ es. IsRetained es log) (sym (append-nil written)) r

      not_found_rotated :
          finds e.event_id (retained log) ≡ false → finds e.event_id (retained (rotate log)) ≡ false
      not_found_rotated unknown = ground (
        arith,
        unknown,
        finds-append e.event_id (lost log.backups) (retained (rotate log)),
        ap (finds e.event_id) (rotate-retained log r.files),
      )

      read_current :
          (long : Bool)
          → finds e.event_id (retained log) ≡ false
          → ltb max_bytes (encoded_bytes e) ≡ false
          → Goes written e log (
              append_to encoded_bytes max_bytes e log
                (if long then err "log_size_invalid" else ok log.current))
      read_current true unknown small = as_before
      read_current false unknown small =
          if_cases (Goes written e log)
            (ltb max_bytes (file_bytes encoded_bytes log.current + encoded_bytes e))
            (ok (true, write encoded_bytes e (rotate log))) (ok (true, write encoded_bytes e log))
            (λ full.
              write-IsRetained written e (rotate log) (rotate-IsRetained written log r)
                (not_found_rotated unknown) (unfold rotate file_bytes in ground arith))
            (λ room. write-IsRetained written e log r unknown (ground arith))

      searched_for :
          (known : Result Bool)
          → is_known encoded_bytes e log ≡ known
          → ltb max_bytes (encoded_bytes e) ≡ false
          → Goes written e log (append_unless encoded_bytes known max_bytes e log)
      searched_for (err reason) h small = as_before
      searched_for (ok true) h small = as_before
      searched_for (ok false) h small =
          read_current (ltb max_bytes (file_bytes encoded_bytes log.current))
            (unknown-finds encoded_bytes e log h) small

  if_append :
      (b : Bool) (written : List DiagnosticEvent) (e : DiagnosticEvent)
      (later : List DiagnosticEvent)
      → (written ++ (if b then e ∷ [] else [])) ++ later
        ≡ written ++ (if b then e ∷ later else later)
  if_append true written e later = append_assoc written (e ∷ []) later
  if_append false written e later = ap (λ es. es ++ later) (append-nil written)

  append_all-IsRetained_onto :
      (written : List DiagnosticEvent) (events : List DiagnosticEvent) (log : Log)
      → IsRetained written log
      → IsRetained
          (written ++ (append_all encoded_bytes max_bytes events log).0)
          (append_all encoded_bytes max_bytes events log).1
  unfolding append_all
  append_all-IsRetained_onto written [] log r =
      subst (λ es. IsRetained es log) (sym (append-nil written)) r
  append_all-IsRetained_onto written (e ∷ events) log r =
      subst (λ es. IsRetained es final)
        (if_append (was_written encoded_bytes result) written e later)
        (append_all-IsRetained_onto
          (written ++ (if was_written encoded_bytes result then e ∷ [] else [])) events
          (log_after encoded_bytes log result) (append_diagnostic_once-IsRetained written e log r))
    where
      result : Result (Bool × Log)
      result = append_diagnostic_once encoded_bytes max_bytes e log

      later : List DiagnosticEvent
      later = (append_all encoded_bytes max_bytes events (log_after encoded_bytes log result)).0

      final : Log
      final = (append_all encoded_bytes max_bytes events (log_after encoded_bytes log result)).1

  empty_log-IsRetained : IsRetained [] empty_log
  unfolding retained file_bytes
  empty_log-IsRetained = record {
    forgotten = [];
    newest = refl;
    distinct = refl;
    files = omega arith;
    current = omega arith;
    backups = tt;
  }

  -- Over any calls on an empty log, each of its at most three files stays within the limit, and
  -- what they hold together, oldest first, is the newest part of the events that were written, where
  -- no identity stands twice: an event is only written again when the log has forgotten it.
  pub append_all-IsRetained :
      (events : List DiagnosticEvent)
      → IsRetained
          (append_all encoded_bytes max_bytes events empty_log).0
          (append_all encoded_bytes max_bytes events empty_log).1
  append_all-IsRetained events = append_all-IsRetained_onto [] events empty_log empty_log-IsRetained
