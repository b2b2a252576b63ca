-- ===== src/Rollout/Reading.antt =====
-- What the batches of a growing rollout hold: every complete line once, in order.
use codex_must_work.Prelude.{
  ℕ, suc, zero, ◌+◌, ◌≡◌, refl, ap, ◌∙◌, sym, subst, Bool, true, false, not, Option, none, some,
  List, [], ◌∷◌, ◌++◌, ◌==◌, ltb, length, length-append, if_cases, arith, Result, ok, err,
}
use mathlib.Core.List.{append_assoc}
use codex_must_work.Rollout.{Limits, readline, ends_with_newline, with_record, read_loop}
use codex_must_work.Rollout.Lines.{
  lines-one, lines, IsWhole, nil-IsWhole, append-IsWhole, readline-IsWhole, readline-append,
}

not-false : (b : Bool) → not b ≡ false → b ≡ true
not-false true h = refl
not-false false h = cc

module _ {A : Type 0} (decode : List ℕ → Option A) where
  abbrev pub prepend : Option A → Option (List A) → Option (List A)
  prepend none r = none
  prepend (some a) none = none
  prepend (some a) (some rest) = some (a ∷ rest)

  -- The records of the lines, if each of them has one.
  abbrev pub decode_all : List (List ℕ) → Option (List A)
  decode_all [] = some []
  decode_all (line ∷ rest) = prepend (decode line) (decode_all rest)

  prepend-append :
      (o : Option A) (p q : Option (List A)) (first second : List A)
      → prepend o p ≡ some first
      → ((front : List A) → p ≡ some front → q ≡ some (front ++ second))
      → prepend o q ≡ some (first ++ second)
  prepend-append none p q first second e f = cc
  prepend-append (some a) none q first second e f = cc
  prepend-append (some a) (some front) q first second e f =
      let same : a ∷ front ≡ first = cc in rw (f front refl) (ap (λ l. some (l ++ second)) same)

  decode_all-append :
      (xs ys : List (List ℕ)) (first second : List A)
      → decode_all xs ≡ some first
      → decode_all ys ≡ some second
      → decode_all (xs ++ ys) ≡ some (first ++ second)
  decode_all-append [] ys first second p q =
      let same : [] ≡ first = cc in subst (λ l. decode_all ys ≡ some (l ++ second)) same q
  decode_all-append (x ∷ xs) ys first second p q =
      prepend-append (decode x) (decode_all xs) (decode_all (xs ++ ys)) first second p
        (λ front e. decode_all-append xs ys front second e q)

  -- The unread bytes are a chunk of whole lines, which gives the records, and what comes behind
  -- it; the chunk moves the offset.
  pub record IsRead (unread : List ℕ) (from : ℕ) (records : List A) (to : ℕ) : Type 0 where
    pub chunk : List ℕ
    pub rest : List ℕ
    pub parts : unread ≡ chunk ++ rest
    pub whole : IsWhole chunk
    pub moved : to ≡ from + length chunk
    pub decoded : decode_all (lines chunk) ≡ some records

  pub nothing-IsRead : (unread : List ℕ) (from : ℕ) → IsRead unread from [] from
  unfolding lines
  nothing-IsRead unread from = record {
    chunk = [];
    rest = unread;
    parts = refl;
    whole = nil-IsWhole;
    moved = omega arith;
    decoded = refl;
  }

  -- A result that is a batch has read its unread bytes.
  abbrev pub Reads : List ℕ → ℕ → Result (List A × ℕ) → Type 0
  Reads unread from (err reason) = Unit
  Reads unread from (ok (records, to)) = IsRead unread from records to

  pub joined :
      (unread : List ℕ) (a b c : ℕ) (first second : List A) (r : IsRead unread a first b)
      → IsRead r.rest b second c
      → IsRead unread a (first ++ second) c
  joined unread a b c first second r s = record {
    chunk = r.chunk ++ s.chunk;
    rest = s.rest;
    parts = r.parts ∙ ap (λ x. r.chunk ++ x) s.parts ∙ sym (append_assoc r.chunk s.chunk s.rest);
    whole = append-IsWhole r.chunk s.chunk r.whole s.whole;
    moved = omega (arith, r.moved, s.moved, length-append r.chunk s.chunk);
    decoded =
        rw (r.whole s.chunk)
          (decode_all-append (lines r.chunk) (lines s.chunk) first second r.decoded s.decoded);
  }

  one_line :
      (n : ℕ) (unread : List ℕ) (from : ℕ) (a : A)
      → ends_with_newline (readline n unread).0 ≡ true
      → decode (readline n unread).0 ≡ some a
      → IsRead unread from (a ∷ []) (from + length (readline n unread).0)
  one_line n unread from a e d = record {
    chunk = (readline n unread).0;
    rest = (readline n unread).1;
    parts = sym (readline-append n unread);
    whole = readline-IsWhole n unread e;
    moved = refl;
    decoded = rw (lines-one n unread e, d) refl;
  }

  decoded_line :
      (n : ℕ) (unread : List ℕ) (from : ℕ) (o : Option A) (more : Result (List A × ℕ))
      → ends_with_newline (readline n unread).0 ≡ true
      → decode (readline n unread).0 ≡ o
      → Reads (readline n unread).1 (from + length (readline n unread).0) more
      → Reads unread from
          (elim o [ none ↦ err "invalid_json" | some a ↦ with_record decode a more ])
  unfolding one_line
  decoded_line n unread from none more e d r = tt
  decoded_line n unread from (some a) (err reason) e d r = tt
  decoded_line n unread from (some a) (ok (records, to)) e d r =
      joined unread from (from + length (readline n unread).0) to (a ∷ []) records
        (one_line n unread from a e d) r

  pub read_loop-Reads :
      (left : ℕ) (l : Limits) (unread : List ℕ) (used from : ℕ)
      → Reads unread from (read_loop decode left l unread used from)
  unfolding read_loop
  read_loop-Reads zero l unread used from = nothing-IsRead unread from
  read_loop-Reads (suc left) l unread used from =
      if_cases (Reads unread from) (length line == 0) (ok ([], from)) _
        (λ _. nothing-IsRead unread from)
        (λ _.
          if_cases (Reads unread from) (ltb l.line_bytes (length line)) (err "line_too_large") _
            (λ _. tt)
            (λ _.
              if_cases (Reads unread from) (not (ends_with_newline line)) (ok ([], from)) _
                (λ _. nothing-IsRead unread from)
                (λ ended.
                  if_cases (Reads unread from) (ltb l.batch_bytes (used + length line))
                    (ok ([], from)) _ (λ _. nothing-IsRead unread from)
                    (λ _.
                      decoded_line (suc l.line_bytes) unread from (decode line) _
                        (not-false _ ended) refl
                        (read_loop-Reads left l (readline (suc l.line_bytes) unread).1
                          (used + length line) (from + length line))))))
    where
      line : List ℕ
      line = (readline (suc l.line_bytes) unread).0
