-- ===== src/Prelude/Results.antt =====
-- A call that returns a value or raises an error with a public reason code.
use Prim.Native.String.{String}
use mathlib.Core.Bool.{Bool, true, false}
use mathlib.Core.Path.{◌≡◌, refl}
use mathlib.Core.Logic.{◌⊎◌, inl, inr}

pub data Result {ℓ} (A : Type ℓ) : Type ℓ where
  ok : A → Result A
  err : String → Result A

infixl 5 ◌>>=◌ ◌>>◌
abbrev pub ◌>>=◌ {ℓ κ} : {A : Type ℓ} {B : Type κ} → Result A → (A → Result B) → Result B
ok a >>= f = f a
err reason >>= f = err reason

abbrev pub ◌>>◌ {ℓ} : {B : Type ℓ} → Result (Unit {0}) → Result B → Result B
m >> k = m >>= λ _. k

-- `if test: fail(reason)`
abbrev pub fail_if : Bool → String → Result (Unit {0})
fail_if true reason = err reason
fail_if false reason = ok tt

pub Result-cases {ℓ} :
    {A : Type ℓ} (r : Result A) → ((reason : String) × (r ≡ err reason)) ⊎ ((a : A) × (r ≡ ok a))
Result-cases (err reason) = inl (reason, refl)
Result-cases (ok a) = inr (a, refl)
