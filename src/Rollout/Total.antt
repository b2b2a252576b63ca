-- ===== src/Rollout/Total.antt =====
-- That a read gets all that there is to read.
use codex_must_work.Prelude.{
  ℕ, suc, zero, ◌+◌, ◌≤◌, ◌<◌, ◌≡◌, refl, ap, ◌∙◌, sym, subst, true, false, Option, none, some,
  List, [], ◌∷◌, ◌==◌, length, length-append, Bool-cases, if_cases, le→ltb, ==_iff, inl, inr, arith,
  ok,
}
use codex_must_work.Rollout.{
  seek, RolloutCursor, RolloutFile, read_new_records, Limits, newline, readline, ends_with_newline,
  read_loop,
}
use codex_must_work.Rollout.Lines.{lines, onto, lines-readline, readline-append}
use codex_must_work.Rollout.Reading.{prepend, decode_all}

longer_open :
    (b : ℕ) (bytes : List ℕ)
    → ends_with_newline (b ∷ bytes) ≡ false
    → ends_with_newline bytes ≡ false
unfolding ends_with_newline
longer_open b [] e = refl
longer_open b (c ∷ bytes) e = e

-- A read that stops before a newline, with bytes to spare, has seen no complete line.
no_complete_line :
    (n : ℕ) (bytes : List ℕ)
    → length bytes < n
    → ends_with_newline (readline n bytes).0 ≡ false
    → lines bytes ≡ []
unfolding readline ends_with_newline lines
no_complete_line zero bytes h e = absurd (omega arith)
no_complete_line (suc n) [] h e = refl
no_complete_line (suc n) (b ∷ bytes) h e = elim (Bool-cases (b == newline)) [
  | inl ends ↦ ground arith
  | inr goes_on ↦ simp (goes_on) (
      ap (onto b) (
        no_complete_line n bytes (omega arith)
          (longer_open b (readline n bytes).0 (rw goes_on at e))))
]

length-readline :
    (n : ℕ) (bytes : List ℕ)
    → length (readline n bytes).0 + length (readline n bytes).1 ≡ length bytes
length-readline n bytes =
    sym (length-append (readline n bytes).0 (readline n bytes).1)
    ∙ ap length (readline-append n bytes)

first_line :
    (n : ℕ) (bytes : List ℕ)
    → ends_with_newline (readline n bytes).0 ≡ true
    → lines bytes ≡ (readline n bytes).0 ∷ lines (readline n bytes).1
first_line n bytes e =
    ap lines (sym (readline-append n bytes)) ∙ lines-readline n bytes (readline n bytes).1 e

not_empty : (bytes : List ℕ) → ends_with_newline bytes ≡ true → (length bytes == 0) ≡ false
unfolding ends_with_newline
not_empty [] e = cc
not_empty (b ∷ bytes) e = ground arith

module _ {A : Type 0} (decode : List ℕ → Option A) where
  -- If the first line has a record, what the rest decodes to.
  split_first :
      (line : List ℕ) (rest : List (List ℕ)) (records : List A)
      → decode_all decode (line ∷ rest) ≡ some records
      → (a : A) × (more : List A) × (decode line ≡ some a)
        × (decode_all decode rest ≡ some more)
        × (records ≡ a ∷ more)
  split_first line rest records e = go (decode line) (decode_all decode rest) refl refl e
    where
      go :
          (o : Option A) (r : Option (List A))
          → decode line ≡ o
          → decode_all decode rest ≡ r
          → prepend decode o r ≡ some records
          → (a : A) × (more : List A) × (decode line ≡ some a)
            × (decode_all decode rest ≡ some more)
            × (records ≡ a ∷ more)
      go none r p q e = cc
      go (some a) none p q e = cc
      go (some a) (some more) p q e = (a, more, p, q, cc)

  nothing_left :
      (bytes : List ℕ) (records : List A)
      → lines bytes ≡ []
      → decode_all decode (lines bytes) ≡ some records
      → [] ≡ records
  nothing_left bytes records e d = cc (subst (λ ls. decode_all decode ls ≡ some records) e d)

  no_lines : (ls : List (List ℕ)) → length ls ≤ 0 → ls ≡ []
  no_lines [] h = refl
  no_lines (x ∷ ls) h = absurd (omega arith)

  read_loop-all :
      (left : ℕ) (l : Limits) (unread : List ℕ) (used from : ℕ) (records : List A)
      → decode_all decode (lines unread) ≡ some records
      → length (lines unread) ≤ left
      → length unread ≤ l.line_bytes
      → used + length unread ≤ l.batch_bytes
      → (to : ℕ) × (read_loop decode left l unread used from ≡ ok (records, to))
  unfolding read_loop
  read_loop-all zero l unread used from records d few short small =
      (from, ap (λ rs. ok (rs, from)) (nothing_left unread records (no_lines (lines unread) few) d))
  read_loop-all (suc left) l unread used from records d few short small =
      elim (Bool-cases (ends_with_newline (readline (suc l.line_bytes) unread).0)) [
        | inr part ↦
            let empty : ok ([], from) ≡ ok (records, from) =
              ap (λ rs. ok (rs, from))
                (nothing_left unread records
                  (no_complete_line (suc l.line_bytes) unread (omega arith) part) d) in
            (
              from,
              if_cases (λ r. r ≡ ok (records, from))
                  (length (readline (suc l.line_bytes) unread).0 == 0) (ok ([], from)) _
                  (λ _. empty)
                  (λ _.
                    simp
                      (
                        le→ltb l.line_bytes (length (readline (suc l.line_bytes) unread).0)
                            (omega (arith, size)),
                        part,
                      )
                      empty),
            )
        | inl whole ↦
            let first = first_line (suc l.line_bytes) unread whole in
            let (a, more, has_record, others, same) =
              split_first (readline (suc l.line_bytes) unread).0
                (lines (readline (suc l.line_bytes) unread).1) records
                (subst (λ ls. decode_all decode ls ≡ some records) first d) in
            let (to, rest) =
              read_loop-all left l (readline (suc l.line_bytes) unread).1
                (used + length (readline (suc l.line_bytes) unread).0)
                (from + length (readline (suc l.line_bytes) unread).0) more others
                (omega (arith, ap length first)) (omega (arith, size)) (omega (arith, size)) in
            (
              to,
              simp
                  (
                    not_empty (readline (suc l.line_bytes) unread).0 whole,
                    le→ltb l.line_bytes (length (readline (suc l.line_bytes) unread).0)
                        (omega (arith, size)),
                    le→ltb l.batch_bytes (used + length (readline (suc l.line_bytes) unread).0)
                        (omega (arith, size)),
                    whole,
                    has_record,
                    rest,
                    same,
                  )
                  refl,
            )
      ]
    where
      size :
          length (readline (suc l.line_bytes) unread).0
            + length (readline (suc l.line_bytes) unread).1
          ≡ length unread
      size = length-readline (suc l.line_bytes) unread

  -- If every complete line behind the cursor has a record, their number and the unread bytes are
  -- within the limits, and the file is the one of the cursor and no shorter than its offset, then one
  -- read succeeds and gets the records of all of them.
  pub reads_all :
      (l : Limits) (f : RolloutFile) (c : RolloutCursor) (records : List A)
      → f.device ≡ c.device
      → f.file_id ≡ c.file_id
      → c.offset ≤ length f.content
      → decode_all decode (lines (seek c.offset f.content)) ≡ some records
      → length (lines (seek c.offset f.content)) ≤ l.batch_records
      → length (seek c.offset f.content) ≤ l.line_bytes
      → length (seek c.offset f.content) ≤ l.batch_bytes
      → (to : ℕ) × (read_new_records decode l f c ≡ ok (records, record c { offset = to }))
  unfolding read_new_records
  reads_all l f c records device file_id within d few short small =
      let (to, all) =
        read_loop-all l.batch_records l (seek c.offset f.content) 0 c.offset records d few short
          (omega arith) in
      (
        to,
        simp
            (
              (==_iff f.device c.device).1 device,
              (==_iff f.file_id c.file_id).1 file_id,
              le→ltb (length f.content) c.offset within,
              all,
            )
            refl,
      )
