-- ===== src/ClientPool/Invariant.antt =====
-- What every method of the client pool keeps.
use codex_must_work.Prelude.{
  ℕ, subst, ◌≡◌, refl, String, Bool, true, false, not, Option, some, List, [], ◌∷◌, ltb, ◌==◌,
  arith, is_none, ==_refl, str_eq, any, all, length, Result, ok, err, ◌⊎◌, inl, inr, Option-cases,
  Bool-cases,
}
use codex_must_work.ClientPool.References.{
  ReferenceRecord, is_active, is_installed, Reference, find, drop_all, take,
}
use codex_must_work.ClientPool.Fits.{
  fits, active, all-drop, all-drop_all, all-assign, any-assign, find-fits, all-drop_last,
  all-assign_last, any-drop_other, all-new, none-fits, any-drop_all, others-drop_all,
  any-drop_closing, fits-installed, closing-not-held,
}
use codex_must_work.ClientPool.Keys.{no_repeats}
use codex_must_work.ClientPool.{
  PooledClient, SharedClientPool, init, ClientBorrow, retain, look_up, publish, leave, give_up,
  commit, release, release_active, oblige, is_other_active, installed_references, last_of,
  all_but_last, is_unselected_active, release_last, release_selected, release_installed, is_current,
  begin_close, end_close,
}

pub record IsBound (p : SharedClientPool) : Type 0 where
  -- Every active reference is to the pooled client, and no closing one is.
  pub bound : all (fits p.pooled) p.references ≡ true
  -- A client is pooled only while a reference is active.
  pub retained : (is_none p.pooled ≡ true) ⊎ (any active p.references ≡ true)

-- The client that a factory made is new: no reference of the pool is to it.
abbrev pub is_new : ℕ → SharedClientPool → Bool
is_new client p = all (λ (e : Reference). not (client == e.1.client)) p.references

pub init-IsBound : IsBound init
init-IsBound = record { bound = refl; retained = inl refl }

retain-IsBound :
    (c : PooledClient) (p : SharedClientPool)
    → all (fits (some c)) p.references ≡ true
    → IsBound (record (retain c.client p).1 { pooled = some c })
unfolding retain
retain-IsBound c p b = record {
  bound = all-assign (fits (some c)) p.fresh _ p.references b (λ k. ground arith);
  retained = inr (any-assign p.fresh _ p.references refl);
}

-- A call that raises leaves the pool as it was.
abbrev pub after : SharedClientPool → Result SharedClientPool → SharedClientPool
after p (ok q) = q
after p (err reason) = p

abbrev pub looked :
    SharedClientPool → Result (Option ClientBorrow × SharedClientPool) → SharedClientPool
looked p (ok (b, q)) = q
looked p (err reason) = p

pub find-bound :
    (p : SharedClientPool) (key : ℕ) (r : ReferenceRecord)
    → IsBound p
    → find key p.references ≡ some r
    → fits p.pooled (key, r) ≡ true
find-bound p key r b e = find-fits p.pooled key r p.references e b.bound

pub commit-IsBound :
    (key : ℕ) (p : SharedClientPool) (r : ReferenceRecord)
    → IsBound p
    → find key p.references ≡ some r
    → is_active r ≡ true
    → IsBound (after p (commit key p))
unfolding commit
commit-IsBound key p r b e a =
    simp (commit, e)
      (elim (Bool-cases (is_installed r)) [
        | inl i ↦ simp i b
        | inr i ↦ simp i (record {
          bound =
              all-assign (fits p.pooled) key _ p.references b.bound
                (λ k. fits-installed p.pooled key k p.fresh r a (find-bound p key r b e));
          retained = inr (any-assign key _ p.references refl);
        })
      ])

release_active-IsBound :
    (key : ℕ) (r : ReferenceRecord) (p : SharedClientPool)
    → IsBound p
    → IsBound (release_active key r p).1
unfolding release_active oblige
release_active-IsBound key r p b = elim (Bool-cases (any (is_other_active key) p.references)) [
  | inl o ↦ simp o (record {
    bound = all-drop (fits p.pooled) key p.references b.bound;
    retained = inr (any-drop_other key p.references o);
  })
  | inr o ↦ simp o (elim (Option-cases p.pooled) [
    | inl e ↦ simp e (record { bound = all-drop_last key p.references o; retained = inl refl })
    | inr (c, e) ↦
        simp e (record { bound = all-assign_last key _ p.references o refl; retained = inl refl })
  ])
]

pub release-IsBound : (key : ℕ) (p : SharedClientPool) → IsBound p → IsBound (release key p).1
unfolding release
release-IsBound key p b = elim (Option-cases (find key p.references)) [
  | inl e ↦ simp (release, e) b
  | inr (r, e) ↦
      simp (release, e)
        (elim (Bool-cases (is_active r)) [
          | inl a ↦ simp a (release_active-IsBound key r p b)
          | inr a ↦ simp a b
        ])
]

release_last-IsBound :
    (e : Reference) (es : List Reference) (p : SharedClientPool)
    → any (is_unselected_active (e ∷ es)) p.references ≡ false
    → IsBound (release_last e es p)
unfolding release_last oblige
release_last-IsBound e es p h =
    let others = others-drop_all e es p.references h in
    let last = (last_of e es).0 in
    let rest = drop_all (all_but_last e es) p.references in
    elim (Option-cases p.pooled) [
      | inl f ↦
          simp (release_last, f)
            (record { bound = all-drop_last last rest others; retained = inl refl })
      | inr (c, f) ↦
          simp (release_last, f)
            (record { bound = all-assign_last last _ rest others refl; retained = inl refl })
    ]

release_selected-IsBound :
    (es : List Reference) (p : SharedClientPool) → IsBound p → IsBound (release_selected es p)
release_selected-IsBound [] p b = b
release_selected-IsBound (e ∷ es) p b =
    elim (Bool-cases (any (is_unselected_active (e ∷ es)) p.references)) [
      | inl h ↦ simp h (record {
        bound = all-drop_all (fits p.pooled) (e ∷ es) p.references b.bound;
        retained = inr (any-drop_all (e ∷ es) p.references h);
      })
      | inr h ↦ simp h (release_last-IsBound e es p h)
    ]

pub release_installed-IsBound :
    (count : ℕ) (p : SharedClientPool) → IsBound p → IsBound (after p (release_installed count p))
unfolding release_installed
release_installed-IsBound count p b =
    elim (Bool-cases (ltb (length (installed_references p.references)) count)) [
      | inl h ↦ simp h b
      | inr h ↦
          simp h (release_selected-IsBound (take count (installed_references p.references)) p b)
    ]

pub look_up-IsBound :
    (fingerprint : String) (p : SharedClientPool)
    → IsBound p
    → IsBound (looked p (look_up fingerprint p))
unfolding look_up
look_up-IsBound fingerprint p b = elim (Option-cases p.pooled) [
  | inl e ↦
      simp (look_up, e)
        (record {
          bound = none-fits p.pooled p.references (simp e refl) b.bound;
          retained = inl refl;
        })
  | inr (c, e) ↦
      simp (look_up, e)
        (elim (Bool-cases (str_eq c.fingerprint fingerprint)) [
          | inl h ↦
              simp h (retain-IsBound c p (subst (λ o. all (fits o) p.references ≡ true) e b.bound))
          | inr h ↦ simp h b
        ])
]

pub publish-IsBound :
    (client : ℕ) (fingerprint : String) (p : SharedClientPool)
    → IsBound p
    → is_none p.pooled ≡ true
    → is_new client p ≡ true
    → IsBound (publish client fingerprint p).1
unfolding publish
publish-IsBound client fingerprint p b e n =
    let made : PooledClient = record { client = client; fingerprint = fingerprint } in
    let idle = none-fits p.pooled p.references e b.bound in
    retain-IsBound made (record p { reserved = false }) (all-new made p.references idle n)

pub give_up-IsBound :
    (p : SharedClientPool) → IsBound p → is_none p.pooled ≡ true → IsBound (give_up (leave p)).1
unfolding give_up leave
give_up-IsBound p b e = record {
  bound = none-fits p.pooled p.references e b.bound;
  retained = inl refl;
}

pub current-found :
    (key : ℕ) (o : ReferenceRecord) (p : SharedClientPool)
    → find key p.references ≡ some o
    → is_current key o p ≡ true
current-found key o p e = simp (is_current, e) (==_refl o.serial)

-- A closing obligation is not to the pooled client, so the start of its close leaves the pool alone.
pub begin_close-same :
    (key : ℕ) (o : ReferenceRecord) (p : SharedClientPool)
    → IsBound p
    → find key p.references ≡ some o
    → is_active o ≡ false
    → begin_close key o p ≡ (some o.client, p)
unfolding begin_close
begin_close-same key o p b e a =
    let held = closing-not-held p.pooled key o (find-bound p key o b e) a in
    simp (current-found key o p e) (simp held refl)

pub end_close-IsBound :
    (key : ℕ) (o : ReferenceRecord) (p : SharedClientPool)
    → IsBound p
    → no_repeats p.references ≡ true
    → find key p.references ≡ some o
    → is_active o ≡ false
    → IsBound (end_close key o p)
unfolding end_close
end_close-IsBound key o p b d e a = simp (current-found key o p e) (record {
  bound = all-drop (fits p.pooled) key p.references b.bound;
  retained = elim b.retained [
    | inl n ↦ inl n
    | inr h ↦ inr (any-drop_closing key o p.references d e a h)
  ];
})
