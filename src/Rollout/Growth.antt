-- ===== src/Rollout/Growth.antt =====
-- A rollout that grows between the reads of its watcher.
use codex_must_work.Prelude.{
  ◌||◌, ℕ, ◌≤◌, ◌≡◌, refl, ap, ◌∙◌, sym, subst, not, Option, List, [], ◌∷◌, ◌++◌, ◌==◌, ltb, length,
  length-append, if_cases, arith, Result, ok, err,
}
use mathlib.Core.List.{append_assoc}
use codex_must_work.Rollout.{
  Limits, RolloutFile, RolloutCursor, seek, and_then, first_and_then, read_new_records,
  read_growing,
}
use codex_must_work.Rollout.Lines.{seek-chunk, seek-grown, length-seek}
use codex_must_work.Rollout.Reading.{IsRead, Reads, nothing-IsRead, joined, read_loop-Reads}

-- What the file has gained in the end.
abbrev pub gained_all : List (List ℕ) → List ℕ
gained_all [] = []
gained_all (gained ∷ growths) = gained ++ gained_all growths

module _ {A : Type 0} (decode : List ℕ → Option A) where
  pub extended :
      (unread more : List ℕ) (from to : ℕ) (records : List A)
      → IsRead decode unread from records to
      → IsRead decode (unread ++ more) from records to
  extended unread more from to records r = record {
    chunk = r.chunk;
    rest = r.rest ++ more;
    parts = ap (λ x. x ++ more) r.parts ∙ append_assoc r.chunk r.rest more;
    whole = r.whole;
    moved = r.moved;
    decoded = r.decoded;
  }

  -- A result with a cursor that has read up to it.
  abbrev pub ReadsTo : List ℕ → ℕ → Result (List A × RolloutCursor) → Type 0
  ReadsTo unread from (err reason) = Unit
  ReadsTo unread from (ok (records, c)) = IsRead decode unread from records c.offset

  with_cursor :
      (unread : List ℕ) (c : RolloutCursor) (r : Result (List A × ℕ))
      → Reads decode unread c.offset r
      → ReadsTo unread c.offset (elim r [
        | err reason ↦ err reason
        | ok (records, offset) ↦ ok (records, record c { offset = offset })
      ])
  with_cursor unread c (err reason) r = tt
  with_cursor unread c (ok (records, offset)) r = r

  pub read_new_records-ReadsTo :
      (l : Limits) (f : RolloutFile) (c : RolloutCursor)
      → ReadsTo (seek c.offset f.content) c.offset (read_new_records decode l f c)
  unfolding read_new_records
  read_new_records-ReadsTo l f c =
      if_cases (ReadsTo (seek c.offset f.content) c.offset)
        (not (f.device == c.device)
          || not (f.file_id == c.file_id)
          || ltb (length f.content) c.offset)
        (err "rollout_rotated") _ (λ _. tt)
        (λ _.
          with_cursor (seek c.offset f.content) c _
            (read_loop-Reads decode l.batch_records l (seek c.offset f.content) 0 c.offset))

  append_rest :
      (unread : List ℕ) (from via : ℕ) (records : List A) (rest : List ℕ)
      (first : IsRead decode unread from records via)
      → first.rest ≡ rest
      → (r : Result (List A × RolloutCursor)) → ReadsTo rest via r
      → ReadsTo unread from (and_then records r)
  append_rest unread from via records rest first e (err reason) s = tt
  append_rest unread from via records rest first e (ok (more, final)) s =
      joined decode unread from via final.offset records more first
        (subst (λ u. IsRead decode u via more final.offset) (sym e) s)

  then_more :
      (unread more : List ℕ) (from : ℕ) (first : Result (List A × RolloutCursor))
      (later : RolloutCursor → Result (List A × RolloutCursor))
      → ReadsTo unread from first
      → ((next : RolloutCursor) (records : List A)
            (r : IsRead decode unread from records next.offset)
          → ReadsTo (r.rest ++ more) next.offset (later next))
      → ReadsTo (unread ++ more) from (first_and_then first later)
  unfolding extended
  then_more unread more from (err reason) later r g = tt
  then_more unread more from (ok (records, next)) later r g =
      append_rest (unread ++ more) from next.offset records (r.rest ++ more)
        (extended unread more from next.offset records r) refl (later next) (g next records r)

  -- Wherever a read ends within the file, the next one of the file with what it gained starts with
  -- the bytes that were left.
  pub left_over :
      (content more : List ℕ) (from to : ℕ) (records : List A)
      (r : IsRead decode (seek from content) from records to)
      → from ≤ length content
      → (to ≤ length content) × (seek to (content ++ more) ≡ r.rest ++ more)
  left_over content more from to records r h = (within, moved)
    where
      within : to ≤ length content
      within = omega (
        arith,
        r.moved,
        length-seek from content h,
        ap length r.parts,
        length-append r.chunk r.rest,
      )

      moved : seek to (content ++ more) ≡ r.rest ++ more
      moved =
          seek-grown to content more within
          ∙ ap (λ u. u ++ more)
              (ap (λ n. seek n content) r.moved ∙ seek-chunk from content r.chunk r.rest r.parts)

  read_growing-ReadsTo :
      (l : Limits) (f : RolloutFile) (c : RolloutCursor) (growths : List (List ℕ))
      → c.offset ≤ length f.content
      → ReadsTo
          (seek c.offset (f.content ++ gained_all growths))
          c.offset
          (read_growing decode l f c growths)
  unfolding read_growing
  read_growing-ReadsTo l f c [] h = nothing-IsRead decode (seek c.offset (f.content ++ [])) c.offset
  read_growing-ReadsTo l f c (gained ∷ growths) h =
      subst (λ u. ReadsTo u c.offset (read_growing decode l f c (gained ∷ growths))) whole
        (then_more (seek c.offset grown.content) (gained_all growths) c.offset
          (read_new_records decode l grown c) (λ next. read_growing decode l grown next growths)
          (read_new_records-ReadsTo l grown c)
          (λ next records r.
            let place =
              left_over grown.content (gained_all growths) c.offset next.offset records r longer in
            subst (λ u. ReadsTo u next.offset (read_growing decode l grown next growths)) place.1
              (read_growing-ReadsTo l grown next growths place.0)))
    where
      grown : RolloutFile
      grown = record f { content = f.content ++ gained }

      longer : c.offset ≤ length (f.content ++ gained)
      longer = omega (arith, length-append f.content gained)

      whole :
          seek c.offset grown.content ++ gained_all growths
          ≡ seek c.offset (f.content ++ (gained ++ gained_all growths))
      whole =
          sym (seek-grown c.offset grown.content (gained_all growths) longer)
          ∙ ap (seek c.offset) (append_assoc f.content gained (gained_all growths))

  -- A watcher that reads a rollout file again and again while the file grows, by whatever bytes and
  -- also in the middle of a line, gets the records of the complete lines between its first cursor
  -- and its last one, each once and in order; and the last cursor stands where a line ends.
  pub read_growing-IsRead :
      (l : Limits) (f : RolloutFile) (c final : RolloutCursor) (growths : List (List ℕ))
      (records : List A)
      → c.offset ≤ length f.content
      → read_growing decode l f c growths ≡ ok (records, final)
      → IsRead decode
          (seek c.offset (f.content ++ gained_all growths))
          c.offset
          records
          final.offset
  read_growing-IsRead l f c final growths records h e =
      subst (ReadsTo (seek c.offset (f.content ++ gained_all growths)) c.offset) e
        (read_growing-ReadsTo l f c growths h)
