-- ===== src/Scheduler/Order.antt =====
-- The heap's order, and which entries a heap holds.
use codex_must_work.Prelude.{
  ℕ, ◌≡◌, inl, inr, refl, String, Bool, true, false, ◌&&◌, ◌||◌, some, List, [], ◌∷◌, arith, ◌==◌,
  str_eq, eq_iff, any, All, Dict, get, Bool-cases,
}
use codex_must_work.Scheduler.{Entry, before, heappush, is_current, discard_stale}

-- No entry of the list stands before `e`.
abbrev pub Least : Entry → List Entry → Type 0
Least e es = All (λ f. before f e ≡ false) es

abbrev pub Sorted : List Entry → Type 0
Sorted [] = Unit {0}
Sorted (e ∷ es) = Least e es × Sorted es

-- The entry that a registration (key, generation) waits for.
abbrev pub serves : String → ℕ → Entry → Bool
serves key g e = str_eq e.key key && e.generation == g

abbrev pub holds : String → ℕ → List Entry → Bool
holds key g es = any (serves key g) es

Least-trans : (e f : Entry) (es : List Entry) → before e f ≡ true → Least f es → Least e es
Least-trans e f [] b l = tt
Least-trans e f (x ∷ es) b l = (ground arith, Least-trans e f es b l.1)

Least-push :
    (e f : Entry) (es : List Entry) → before e f ≡ false → Least f es → Least f (heappush e es)
unfolding heappush
Least-push e f [] b l = (b, tt)
Least-push e f (x ∷ es) b l = elim (Bool-cases (before e x)) [
  | inl p ↦ rw p (b, l)
  | inr p ↦ rw p (l.0, Least-push e f es b l.1)
]

pub Sorted-heappush : (e : Entry) (es : List Entry) → Sorted es → Sorted (heappush e es)
unfolding heappush
Sorted-heappush e [] v = (tt, tt)
Sorted-heappush e (x ∷ es) v = elim (Bool-cases (before e x)) [
  | inl p ↦ rw p ((ground arith, Least-trans e x es p v.0), v)
  | inr p ↦ rw p (Least-push e x es p v.0, Sorted-heappush e es v.1)
]

pub holds-heappush :
    (key : String) (g : ℕ) (e : Entry) (es : List Entry)
    → holds key g (heappush e es) ≡ (serves key g e || holds key g es)
unfolding heappush
holds-heappush key g e [] = refl
holds-heappush key g e (x ∷ es) = ground (arith, holds-heappush key g e es)

pub All-heappush {ℓ} :
    (P : Entry → Type ℓ) (e : Entry) (es : List Entry) → P e → All P es → All P (heappush e es)
unfolding heappush
All-heappush P e [] p q = (p, tt)
All-heappush P e (x ∷ es) p q = elim (Bool-cases (before e x)) [
  | inl b ↦ rw b (p, q)
  | inr b ↦ rw b (q.0, All-heappush P e es p q.1)
]

pub Sorted-discard_stale :
    (gs : Dict ℕ) (es : List Entry) → Sorted es → Sorted (discard_stale gs es)
unfolding discard_stale
Sorted-discard_stale gs [] v = tt
Sorted-discard_stale gs (e ∷ es) v = ground (arith, Sorted-discard_stale gs es v.1)

pub All-discard_stale {ℓ} :
    (P : Entry → Type ℓ) (gs : Dict ℕ) (es : List Entry) → All P es → All P (discard_stale gs es)
unfolding discard_stale
All-discard_stale P gs [] q = tt
All-discard_stale P gs (e ∷ es) q = elim (Bool-cases (is_current gs e)) [
  | inl c ↦ rw c q
  | inr c ↦ rw c (All-discard_stale P gs es q.1)
]

-- A stale entry serves no registration.
pub holds-discard_stale :
    (gs : Dict ℕ) (key : String) (g : ℕ) (es : List Entry)
    → get gs key ≡ some g
    → holds key g (discard_stale gs es) ≡ holds key g es
unfolding discard_stale
holds-discard_stale gs key g [] r = refl
holds-discard_stale gs key g (e ∷ es) r = elim (Bool-cases (is_current gs e)) [
  | inl c ↦ rw c
  | inr c ↦ rw c (ground (arith, eq_iff e.key key, holds-discard_stale gs key g es r))
]

-- What is left begins with a current entry.
pub discard_stale-head :
    (gs : Dict ℕ) (es : List Entry) (e : Entry) (rest : List Entry)
    → discard_stale gs es ≡ e ∷ rest
    → is_current gs e ≡ true
unfolding discard_stale
discard_stale-head gs [] e rest h = cc
discard_stale-head gs (x ∷ es) e rest h = elim (Bool-cases (is_current gs x)) [
  | inl c ↦ ground arith
  | inr c ↦ discard_stale-head gs es e rest (ground arith)
]
