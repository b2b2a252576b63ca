-- ===== src/ClientPool/Keys.antt =====
-- The references of the pool are a dict: no key of theirs repeats.
use codex_must_work.Prelude.{
  ℕ, ◌≡◌, refl, Bool, true, false, not, ◌&&◌, ◌||◌, List, [], ◌∷◌, ◌==◌, arith,
}
use codex_must_work.ClientPool.References.{ReferenceRecord, Reference, assign, drop, drop_all}

abbrev pub has_key : ℕ → List Reference → Bool
has_key key [] = false
has_key key ((k, r) ∷ refs) = k == key || has_key key refs

abbrev pub no_repeats : List Reference → Bool
no_repeats [] = true
no_repeats ((k, r) ∷ refs) = not (has_key k refs) && no_repeats refs

has_key-drop :
    (j key : ℕ) (refs : List Reference) → has_key j refs ≡ false → has_key j (drop key refs) ≡ false
unfolding drop
has_key-drop j key [] h = refl
has_key-drop j key ((k, r) ∷ refs) h = ground (arith, has_key-drop j key refs)

has_key-drop_self : (key : ℕ) (refs : List Reference) → has_key key (drop key refs) ≡ false
unfolding drop
has_key-drop_self key [] = refl
has_key-drop_self key ((k, r) ∷ refs) = ground (arith, has_key-drop_self key refs)

pub no_repeats-drop :
    (key : ℕ) (refs : List Reference) → no_repeats refs ≡ true → no_repeats (drop key refs) ≡ true
unfolding drop
no_repeats-drop key [] h = refl
no_repeats-drop key ((k, r) ∷ refs) h =
    ground (arith, has_key-drop k key refs, no_repeats-drop key refs)

has_key-assign :
    (j key : ℕ) (r : ReferenceRecord) (refs : List Reference)
    → has_key j refs ≡ false
    → (key == j) ≡ false
    → has_key j (assign key r refs) ≡ false
unfolding assign
has_key-assign j key r [] h n = ground arith
has_key-assign j key r ((k, q) ∷ refs) h n =
    ground (arith, has_key-drop j key refs, has_key-assign j key r refs)

pub no_repeats-assign :
    (key : ℕ) (r : ReferenceRecord) (refs : List Reference)
    → no_repeats refs ≡ true
    → no_repeats (assign key r refs) ≡ true
unfolding assign
no_repeats-assign key r [] h = refl
no_repeats-assign key r ((k, q) ∷ refs) h = ground (
  arith,
  has_key-drop_self key refs,
  has_key-assign k key r refs,
  no_repeats-drop key refs,
  no_repeats-assign key r refs,
)

has_key-drop_all :
    (j : ℕ) (es refs : List Reference)
    → has_key j refs ≡ false
    → has_key j (drop_all es refs) ≡ false
unfolding drop_all
has_key-drop_all j es [] h = refl
has_key-drop_all j es ((k, r) ∷ refs) h = ground (arith, has_key-drop_all j es refs)

pub no_repeats-drop_all :
    (es refs : List Reference) → no_repeats refs ≡ true → no_repeats (drop_all es refs) ≡ true
unfolding drop_all
no_repeats-drop_all es [] h = refl
no_repeats-drop_all es ((k, r) ∷ refs) h =
    ground (arith, has_key-drop_all k es refs, no_repeats-drop_all es refs)

pub drop-absent :
    (key : ℕ) (refs : List Reference) → has_key key refs ≡ false → drop key refs ≡ refs
unfolding drop
drop-absent key [] h = refl
drop-absent key ((k, r) ∷ refs) h = ground (arith, drop-absent key refs)
