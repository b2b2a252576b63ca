-- ===== src/Calibration/Sorting.antt =====
-- Sorted lists of numbers and the ranks in them.
use codex_must_work.Prelude.{
  ℕ, zero, suc, ◌+◌, ◌≤◌, ◌<◌, ◌≡◌, Bool, some, List, [], ◌∷◌, length, count_if, All, get_elem?,
  leb, if◌then◌else◌, arith, refl, Bool-cases, inl, inr,
}
use codex_must_work.Calibration.{insert, sort}

count_if-insert :
    (p : ℕ → Bool) (x : ℕ) (ys : List ℕ)
    → count_if p (insert x ys) ≡ (if p x then 1 else 0) + count_if p ys
count_if-insert p x [] = ground arith
count_if-insert p x (y ∷ ys) = ground (arith, count_if-insert p x ys)

pub count_if-sort : (p : ℕ → Bool) (xs : List ℕ) → count_if p (sort xs) ≡ count_if p xs
unfolding sort
count_if-sort p [] = refl
count_if-sort p (x ∷ xs) = ground (arith, count_if-insert p x (sort xs), count_if-sort p xs)

length-insert : (x : ℕ) (ys : List ℕ) → length (insert x ys) ≡ suc (length ys)
length-insert x [] = refl
length-insert x (y ∷ ys) = ground (arith, length-insert x ys)

pub length-sort : (xs : List ℕ) → length (sort xs) ≡ length xs
unfolding sort
length-sort [] = refl
length-sort (x ∷ xs) = ground (arith, length-insert x (sort xs), length-sort xs)

-- Each element is at most all that follow.
abbrev pub IsSorted : List ℕ → Type 0
IsSorted [] = Unit
IsSorted (x ∷ xs) = All (λ y. x ≤ y) xs × IsSorted xs

All-insert : (a x : ℕ) (ys : List ℕ) → a ≤ x → All (λ y. a ≤ y) ys → All (λ y. a ≤ y) (insert x ys)
All-insert a x [] h u = (h, tt)
All-insert a x (y ∷ ys) h (l, u) = elim (Bool-cases (leb x y)) [
  | inl below ↦ simp below (h, (l, u))
  | inr above ↦ simp above (l, All-insert a x ys h u)
]

All-below : (a b : ℕ) (ys : List ℕ) → a ≤ b → All (λ y. b ≤ y) ys → All (λ y. a ≤ y) ys
All-below a b [] h u = tt
All-below a b (y ∷ ys) h (l, u) = (omega arith, All-below a b ys h u)

insert-IsSorted : (x : ℕ) (ys : List ℕ) → IsSorted ys → IsSorted (insert x ys)
insert-IsSorted x [] s = (tt, tt)
insert-IsSorted x (y ∷ ys) (u, s) = elim (Bool-cases (leb x y)) [
  | inl below ↦ let at : x ≤ y = ground arith in simp below ((at, All-below x y ys at u), (u, s))
  | inr above ↦ simp above (All-insert y x ys (ground arith) u, insert-IsSorted x ys s)
]

pub sort-IsSorted : (xs : List ℕ) → IsSorted (sort xs)
unfolding sort
sort-IsSorted [] = tt
sort-IsSorted (x ∷ xs) = insert-IsSorted x (sort xs) (sort-IsSorted xs)

All-get_elem? : (a i v : ℕ) (ys : List ℕ) → All (λ y. a ≤ y) ys → get_elem? ys i ≡ some v → a ≤ v
All-get_elem? a i v [] u e = ground arith
All-get_elem? a zero v (y ∷ ys) (l, u) e = ground arith
All-get_elem? a (suc i) v (y ∷ ys) (l, u) e = All-get_elem? a i v ys u e

-- The elements up to a rank are at most the one at the rank.
pub rank_counts :
    (i v : ℕ) (ys : List ℕ) → IsSorted ys → get_elem? ys i ≡ some v → i < count_if (λ y. leb y v) ys
rank_counts i v [] s e = ground arith
rank_counts zero v (y ∷ ys) (u, s) e = ground arith
rank_counts (suc i) v (y ∷ ys) (u, s) e =
    ground (arith, All-get_elem? y i v ys u e, rank_counts i v ys s e)

pub get_elem?-found : (i : ℕ) (ys : List ℕ) → i < length ys → (v : ℕ) × (get_elem? ys i ≡ some v)
get_elem?-found i [] h = absurd (omega arith)
get_elem?-found zero (y ∷ ys) h = (y, refl)
get_elem?-found (suc i) (y ∷ ys) h = get_elem?-found i ys (omega arith)
