-- ===== src/ClientPool/Exclusion.antt =====
-- A pool is a dict of references, and pools no client while a borrower has the reservation.
use mathlib.Core.List.{List}
use codex_must_work.Prelude.{
  if_cases, [], ◌∷◌, ℕ, ◌≡◌, refl, String, true, false, is_none, Option-cases, Bool-cases, inl, inr,
  any, length, ◌⊎◌, arith, ltb, str_eq,
}
use codex_must_work.ClientPool.References.{
  ReferenceRecord, is_active, find, drop, take, is_installed, Reference, drop_all,
}
use codex_must_work.ClientPool.Keys.{
  no_repeats, no_repeats-drop, no_repeats-assign, no_repeats-drop_all,
}
use codex_must_work.ClientPool.{
  ◌∷◌, PooledClient, SharedClientPool, retain, look_up, commit, release, release_active,
  release_installed, release_selected, release_last, installed_references, is_unselected_active,
  is_other_active, last_of, all_but_last, end_close, is_current, oblige,
}
use codex_must_work.ClientPool.Invariant.{after, looked}

-- The references are a dict, and while a borrower has the reservation no client is pooled.
pub record IsPool (p : SharedClientPool) : Type 0 where
  pub is_dict : no_repeats p.references ≡ true
  pub alone : (p.reserved ≡ false) ⊎ (is_none p.pooled ≡ true)

pub retain-IsPool : (client : ℕ) (p : SharedClientPool) → IsPool p → IsPool (retain client p).1
unfolding retain
retain-IsPool client p b = record {
  is_dict = no_repeats-assign p.fresh _ p.references b.is_dict;
  alone = b.alone;
}

oblige-IsPool :
    (key : ℕ) (r : ReferenceRecord) (c : PooledClient) (refs : List Reference)
    (p : SharedClientPool)
    → no_repeats refs ≡ true
    → IsPool (oblige key r c refs p).1
unfolding oblige
oblige-IsPool key r c refs p d = record {
  is_dict = no_repeats-assign key _ refs d;
  alone = inr refl;
}

drop-IsPool :
    (key : ℕ) (p : SharedClientPool)
    → IsPool p
    → IsPool (record p { references = drop key p.references })
drop-IsPool key p b = record {
  is_dict = no_repeats-drop key p.references b.is_dict;
  alone = b.alone;
}

release_active-IsPool :
    (key : ℕ) (r : ReferenceRecord) (p : SharedClientPool)
    → IsPool p
    → IsPool (release_active key r p).1
unfolding release_active
release_active-IsPool key r p b = elim (Bool-cases (any (is_other_active key) p.references)) [
  | inl o ↦ simp o (drop-IsPool key p b)
  | inr o ↦ simp o (elim (Option-cases p.pooled) [
    | inl e ↦
        simp (release_active, e)
          (record { is_dict = no_repeats-drop key p.references b.is_dict; alone = inr refl })
    | inr (c, e) ↦ simp (release_active, e) (oblige-IsPool key r c p.references p b.is_dict)
  ])
]

pub release-IsPool : (key : ℕ) (p : SharedClientPool) → IsPool p → IsPool (release key p).1
unfolding release
release-IsPool key p b = elim (Option-cases (find key p.references)) [
  | inl e ↦ simp (release, e) b
  | inr (r, e) ↦
      simp (release, e)
        (elim (Bool-cases (is_active r)) [
          | inl a ↦ simp a (release_active-IsPool key r p b)
          | inr a ↦ simp a b
        ])
]

release_last-IsPool :
    (e : Reference) (es : List Reference) (p : SharedClientPool)
    → IsPool p
    → IsPool (release_last e es p)
unfolding release_last
release_last-IsPool e es p b =
    let last = (last_of e es).0 in
    let rest = drop_all (all_but_last e es) p.references in
    let distinct = no_repeats-drop_all (all_but_last e es) p.references b.is_dict in
    elim (Option-cases p.pooled) [
      | inl f ↦
          simp (release_last, f)
            (record { is_dict = no_repeats-drop last rest distinct; alone = inr refl })
      | inr (c, f) ↦ simp (release_last, f) (oblige-IsPool last (last_of e es).1 c rest p distinct)
    ]

release_selected-IsPool :
    (es : List Reference) (p : SharedClientPool) → IsPool p → IsPool (release_selected es p)
release_selected-IsPool [] p b = b
release_selected-IsPool (e ∷ es) p b =
    elim (Bool-cases (any (is_unselected_active (e ∷ es)) p.references)) [
      | inl h ↦ simp h (record {
        is_dict = no_repeats-drop_all (e ∷ es) p.references b.is_dict;
        alone = b.alone;
      })
      | inr h ↦ simp h (release_last-IsPool e es p b)
    ]

pub look_up-IsPool :
    (fingerprint : String) (p : SharedClientPool)
    → IsPool p
    → IsPool (looked p (look_up fingerprint p))
unfolding look_up
look_up-IsPool fingerprint p b = elim (Option-cases p.pooled) [
  | inl e ↦ simp (look_up, e) (record { is_dict = b.is_dict; alone = inr refl })
  | inr (c, e) ↦
      simp (look_up, e)
        (elim (Bool-cases (str_eq c.fingerprint fingerprint)) [
          | inl h ↦ simp h (record {
            is_dict = (retain-IsPool c.client p b).is_dict;
            alone = inl (elim b.alone [ inl f ↦ f | inr f ↦ ground arith ]);
          })
          | inr h ↦ simp h b
        ])
]

pub commit-IsPool : (key : ℕ) (p : SharedClientPool) → IsPool p → IsPool (after p (commit key p))
unfolding commit
commit-IsPool key p b = elim (Option-cases (find key p.references)) [
  | inl e ↦ simp (commit, e) b
  | inr (r, e) ↦
      simp (commit, e)
        (elim (Bool-cases (is_installed r)) [
          | inl i ↦ simp i b
          | inr i ↦
              simp i (record {
                is_dict = no_repeats-assign key _ p.references b.is_dict;
                alone = b.alone;
              })
        ])
]

pub release_installed-IsPool :
    (count : ℕ) (p : SharedClientPool) → IsPool p → IsPool (after p (release_installed count p))
unfolding release_installed
release_installed-IsPool count p b =
    let candidates = installed_references p.references in
    elim (Bool-cases (ltb (length candidates) count)) [
      | inl h ↦ simp h b
      | inr h ↦ simp h (release_selected-IsPool (take count candidates) p b)
    ]

pub end_close-IsPool :
    (key : ℕ) (o : ReferenceRecord) (p : SharedClientPool) → IsPool p → IsPool (end_close key o p)
unfolding end_close
end_close-IsPool key o p b =
    if_cases IsPool (is_current key o p) _ _ (λ e. drop-IsPool key p b) (λ e. b)
