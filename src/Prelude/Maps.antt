-- ===== src/Prelude/Maps.antt =====
-- Python's `dict` with text keys, where its order is not read: the newest binding of a key comes
-- first and an update takes the older ones out.
use codex_must_work.Prelude.Tests.{if◌then◌else◌, is_none, Bool-cases}
use codex_must_work.Prelude.Lists.{length, keep}
use Prim.Native.Nat.{suc, ◌≤◌}
use Prim.Native.String.{String}
use mathlib.Core.Path.{◌≡◌, refl, ap, subst}
use mathlib.Core.Logic.{inl, inr}
use mathlib.Core.Bool.{Bool, true, false, not, ◌&&◌, ◌||◌}
use mathlib.Core.List.{List, [], ◌∷◌}
use mathlib.Core.Option.{Option, none, some}
use native.Mathlib.Omega.{arith}
use text.Mathlib.Text.{◌==◌ as str_eq}
use text.Mathlib.TextEquality.{eq_iff}
use text.Mathlib.TextPositions.{eq_refl}

abbrev pub Dict {ℓ} : Type ℓ → Type ℓ
Dict V = List (String × V)

module _ {ℓ} {V : Type ℓ} where
  -- `d.get(key)`
  unfoldable pub get : Dict V → String → Option V
  get [] key = none
  get ((k, v) ∷ d) key = if str_eq k key then some v else get d key

  -- `d.pop(key, None)`
  unfoldable pub remove : String → Dict V → Dict V
  remove key [] = []
  remove key ((k, v) ∷ d) = let rest = remove key d in if str_eq k key then rest else (k, v) ∷ rest

  -- `d[key] = value`
  unfoldable pub put : String → V → Dict V → Dict V
  unfolding remove
  put key v d = (key, v) ∷ remove key d

  -- `key in d`
  unfoldable pub has : Dict V → String → Bool
  unfolding get
  has d key = not (is_none (get d key))

  pub get-remove :
      (d : Dict V) (key j : String)
      → get (remove key d) j ≡ (if str_eq key j then none else get d j)
  unfolding get remove
  get-remove [] key j = ground arith
  get-remove ((k, v) ∷ d) key j =
      ground (arith, eq_iff k key, eq_iff k j, eq_iff key j, get-remove d key j)

  pub get-put :
      (d : Dict V) (key j : String) (v : V)
      → get (put key v d) j ≡ (if str_eq key j then some v else get d j)
  unfolding get put
  get-put d key j v = ground (arith, get-remove d key j)

  pub length-remove : (key : String) (d : Dict V) → length (remove key d) ≤ length d
  unfolding remove
  length-remove key [] = omega arith
  length-remove key ((k, v) ∷ d) = ground (arith, length-remove key d)

  pub length-remove-has :
      (key : String) (d : Dict V) → has d key ≡ true → suc (length (remove key d)) ≤ length d
  unfolding remove has get
  length-remove-has key [] h = cc
  length-remove-has key ((k, v) ∷ d) h =
      ground (arith, length-remove key d, length-remove-has key d)

  pub has-put :
      (d : Dict V) (key j : String) (v : V) → has (put key v d) j ≡ (str_eq key j || has d j)
  unfolding has
  has-put d key j v = ground (arith, get-put d key j v)

  pub has-remove :
      (d : Dict V) (key j : String) → has (remove key d) j ≡ (not (str_eq key j) && has d j)
  unfolding has
  has-remove d key j = ground (arith, get-remove d key j)

  pub length-put : (key : String) (v : V) (d : Dict V) → length (put key v d) ≤ suc (length d)
  unfolding put
  length-put key v d = omega (arith, length-remove key d)

  pub length-put-has :
      (key : String) (v : V) (d : Dict V) → has d key ≡ true → length (put key v d) ≤ length d
  unfolding put
  length-put-has key v d h = omega (arith, length-remove-has key d h)

  pub get-has : (key : String) (v : V) (d : Dict V) → get d key ≡ some v → has d key ≡ true
  unfolding has
  get-has key v d e = rw e refl

  -- A dict has each key once.
  abbrev pub keys_distinct : Dict V → Bool
  keys_distinct [] = true
  keys_distinct ((k, v) ∷ d) = not (has d k) && keys_distinct d

  pub keys_distinct-remove :
      (key : String) (d : Dict V) → keys_distinct d ≡ true → keys_distinct (remove key d) ≡ true
  unfolding remove
  keys_distinct-remove key [] h = refl
  keys_distinct-remove key ((k, v) ∷ d) h =
      ground (arith, has-remove d key k, keys_distinct-remove key d)

  pub keys_distinct-put :
      (key : String) (v : V) (d : Dict V)
      → keys_distinct d ≡ true
      → keys_distinct (put key v d) ≡ true
  unfolding put
  keys_distinct-put key v d h =
      ground (arith, has-remove d key key, eq_refl key, keys_distinct-remove key d)

  has-keep :
      (p : String × V → Bool) (d : Dict V) (key : String)
      → has d key ≡ false
      → has (keep p d) key ≡ false
  unfolding has get
  has-keep p [] key h = refl
  has-keep p ((k, v) ∷ d) key h = ground (arith, has-keep p d key)

  -- An entry that is filtered out is not found any more.
  pub get-keep_out :
      (p : String × V → Bool) (d : Dict V) (key : String) (v : V)
      → keys_distinct d ≡ true
      → get d key ≡ some v
      → p (key, v) ≡ false
      → has (keep p d) key ≡ false
  unfolding has get
  get-keep_out p [] key v d e o = refl
  get-keep_out p ((k, w) ∷ d) key v h e o = elim (Bool-cases (str_eq k key)) [
    | inl same ↦
        let equal : k ≡ key = (eq_iff k key).0 same in
        let test : p (k, w) ≡ p (key, w) = ap (λ (j : String). p (j, w)) equal in
        let absent : has d key ≡ false = subst (λ j. has d j ≡ false) equal (ground arith) in
        ground (arith, test, same, has-keep p d key absent)
    | inr other ↦ ground (arith, other, get-keep_out p d key v)
  ]

  -- An entry that passes the filter is found as before.
  pub get-keep_in :
      (p : String × V → Bool) (d : Dict V) (key : String) (v : V)
      → get d key ≡ some v
      → p (key, v) ≡ true
      → get (keep p d) key ≡ some v
  unfolding get
  get-keep_in p [] key v e i = e
  get-keep_in p ((k, w) ∷ d) key v e i = elim (Bool-cases (str_eq k key)) [
    | inl same ↦
        let equal : k ≡ key = (eq_iff k key).0 same in
        let test : p (k, w) ≡ p (key, w) = ap (λ (j : String). p (j, w)) equal in
        ground (arith, test, same)
    | inr other ↦ ground (arith, other, get-keep_in p d key v)
  ]
