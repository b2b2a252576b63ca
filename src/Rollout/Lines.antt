-- ===== src/Rollout/Lines.antt =====
-- The complete lines of a text of bytes, and what one `readline` takes of them.
use codex_must_work.Prelude.{
  ℕ, suc, zero, ◌+◌, ◌≡◌, refl, ap, ◌∙◌, true, false, List, [], ◌∷◌, ◌++◌, ◌==◌, length,
  if◌then◌else◌, Bool-cases, inl, inr, arith, sym, subst, ◌≤◌,
}
use mathlib.Core.List.{append_assoc, append-nil}
use codex_must_work.Rollout.{newline, readline, ends_with_newline, seek}

-- A byte at the head of the first line, if there is a complete one.
abbrev pub onto : ℕ → List (List ℕ) → List (List ℕ)
onto b [] = []
onto b (line ∷ lines) = (b ∷ line) ∷ lines

-- The complete lines, each with its newline; bytes behind the last newline are not in one.
unfoldable pub lines : List ℕ → List (List ℕ)
lines [] = []
lines (b ∷ bytes) = if b == newline then (b ∷ []) ∷ lines bytes else onto b (lines bytes)

pub readline-append :
    (n : ℕ) (bytes : List ℕ) → (readline n bytes).0 ++ (readline n bytes).1 ≡ bytes
unfolding readline
readline-append zero bytes = refl
readline-append (suc n) [] = refl
readline-append (suc n) (b ∷ bytes) = elim (Bool-cases (b == newline)) [
  | inl ends ↦ simp (ends) refl
  | inr goes_on ↦ simp (goes_on) (ap (λ r. b ∷ r) (readline-append n bytes))
]

longer_ends :
    (b : ℕ) (bytes : List ℕ)
    → (b == newline) ≡ false
    → ends_with_newline (b ∷ bytes) ≡ true
    → ends_with_newline bytes ≡ true
unfolding ends_with_newline
longer_ends b [] other e = cc
longer_ends b (c ∷ bytes) other e = e

-- A line that was read up to its newline is the first line, whatever follows it.
pub lines-readline :
    (n : ℕ) (bytes rest : List ℕ)
    → ends_with_newline (readline n bytes).0 ≡ true
    → lines ((readline n bytes).0 ++ rest) ≡ (readline n bytes).0 ∷ lines rest
unfolding readline lines ends_with_newline
lines-readline zero bytes rest e = cc
lines-readline (suc n) [] rest e = cc
lines-readline (suc n) (b ∷ bytes) rest e = elim (Bool-cases (b == newline)) [
  | inl ends ↦ simp (ends) refl
  | inr goes_on ↦
      let first : ends_with_newline (readline n bytes).0 ≡ true =
        longer_ends b (readline n bytes).0 goes_on (rw goes_on at e) in
      simp (goes_on) (simp (lines-readline n bytes rest first) refl)
]

-- Bytes that end where a line ends: the lines of what follows them are separate.
abbrev pub IsWhole : List ℕ → Type 0
IsWhole chunk = (rest : List ℕ) → lines (chunk ++ rest) ≡ lines chunk ++ lines rest

pub nil-IsWhole : IsWhole []
unfolding lines
nil-IsWhole rest = refl

pub append-IsWhole : (a b : List ℕ) → IsWhole a → IsWhole b → IsWhole (a ++ b)
append-IsWhole a b p q rest =
    simp (append_assoc)
      (simp (p (b ++ rest), p b, q rest) (sym (append_assoc (lines a) (lines b) (lines rest))))

pub lines-one :
    (n : ℕ) (bytes : List ℕ)
    → ends_with_newline (readline n bytes).0 ≡ true
    → lines (readline n bytes).0 ≡ (readline n bytes).0 ∷ []
unfolding lines
lines-one n bytes e =
    subst (λ l. lines l ≡ (readline n bytes).0 ∷ []) (append-nil (readline n bytes).0)
      (lines-readline n bytes [] e)

pub readline-IsWhole :
    (n : ℕ) (bytes : List ℕ)
    → ends_with_newline (readline n bytes).0 ≡ true
    → IsWhole (readline n bytes).0
readline-IsWhole n bytes e rest =
    lines-readline n bytes rest e ∙ ap (λ ls. ls ++ lines rest) (sym (lines-one n bytes e))

pub seek-append : (a b : List ℕ) → seek (length a) (a ++ b) ≡ b
unfolding seek
seek-append [] b = refl
seek-append (x ∷ a) b = seek-append a b

seek-nil : (n : ℕ) → seek n [] ≡ []
unfolding seek
seek-nil zero = refl
seek-nil (suc n) = refl

seek-add : (m n : ℕ) (bytes : List ℕ) → seek (m + n) bytes ≡ seek n (seek m bytes)
unfolding seek
seek-add zero n bytes = ap (λ k. seek k bytes) (omega arith)
seek-add (suc m) n [] = seek-nil (suc m + n) ∙ sym (seek-nil n)
seek-add (suc m) n (b ∷ bytes) = ap (λ k. seek k (b ∷ bytes)) first ∙ seek-add m n bytes
  where
    first : suc m + n ≡ suc (m + n)
    first = omega arith

pub seek-chunk :
    (n : ℕ) (bytes chunk rest : List ℕ)
    → seek n bytes ≡ chunk ++ rest
    → seek (n + length chunk) bytes ≡ rest
seek-chunk n bytes chunk rest e =
    seek-add n (length chunk) bytes ∙ ap (seek (length chunk)) e ∙ seek-append chunk rest

pub length-seek :
    (n : ℕ) (bytes : List ℕ) → n ≤ length bytes → n + length (seek n bytes) ≡ length bytes
unfolding seek
length-seek zero bytes h = omega arith
length-seek (suc n) [] h = absurd (omega arith)
length-seek (suc n) (b ∷ bytes) h = omega (arith, length-seek n bytes (omega arith))

pub seek-grown :
    (n : ℕ) (bytes gained : List ℕ)
    → n ≤ length bytes
    → seek n (bytes ++ gained) ≡ seek n bytes ++ gained
unfolding seek
seek-grown zero bytes gained h = refl
seek-grown (suc n) [] gained h = absurd (omega arith)
seek-grown (suc n) (b ∷ bytes) gained h = seek-grown n bytes gained (omega arith)
