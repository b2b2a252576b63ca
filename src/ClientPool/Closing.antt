-- ===== src/ClientPool/Closing.antt =====
-- Who closes the client, and who shares it.
use codex_must_work.Prelude.{
  ◌+◌, ◌⊎◌, inl, inr, Bool-cases, ℕ, ◌≡◌, ◌≢◌, refl, String, true, false, none, some, List, [], ◌∷◌,
  arith, any, ok, err, str_eq, eq_iff,
}
use codex_must_work.ClientPool.References.{
  borrowed, installed, ReferenceRecord, Reference, is_active, is_installed, find, assign,
}
use codex_must_work.ClientPool.{
  PooledClient, SharedClientPool, ClientBorrow, look_up, release, release_active, oblige, commit,
  retain, is_other_active,
}
use codex_must_work.ClientPool.Fits.{active, any-drop_other}

-- The records that `retain` and `commit` make, and the pool after `commit`.
abbrev borrowed_record : ℕ → SharedClientPool → ReferenceRecord
borrowed_record client p = record {
  client = client;
  state = borrowed;
  close_gate = p.fresh;
  serial = p.fresh;
}

abbrev installed_record : ReferenceRecord → SharedClientPool → ReferenceRecord
installed_record r p = record r { state = installed; serial = p.fresh }

abbrev installed_in : ℕ → ReferenceRecord → SharedClientPool → SharedClientPool
installed_in key r p = record p {
  references = assign key (installed_record r p) p.references;
  fresh = p.fresh + 1;
}

find-assign :
    (key : ℕ) (r : ReferenceRecord) (refs : List Reference) → find key (assign key r refs) ≡ some r
unfolding find assign
find-assign key r [] = ground arith
find-assign key r ((k, q) ∷ refs) = ground (arith, find-assign key r refs)

-- While another reference is active, a release takes its own reference out, leaves nothing to close,
-- keeps the pooled client, and some reference stays active.
shared_release :
    (p : SharedClientPool) (key : ℕ) (r : ReferenceRecord)
    → find key p.references ≡ some r
    → is_active r ≡ true
    → any (is_other_active key) p.references ≡ true
    → ((release key p).0 ≡ none)
      × ((release key p).1.pooled ≡ p.pooled)
      × (any active (release key p).1.references ≡ true)
unfolding release release_active
shared_release p key r e a o =
    simp (release, e) (simp a (simp o (refl, refl, any-drop_other key p.references o)))

release_last_eq :
    (p : SharedClientPool) (key : ℕ) (r : ReferenceRecord) (c : PooledClient)
    → find key p.references ≡ some r
    → is_active r ≡ true
    → any (is_other_active key) p.references ≡ false
    → p.pooled ≡ some c
    → release key p ≡ (some (oblige key r c p.references p).0, (oblige key r c p.references p).1)
unfolding release release_active
release_last_eq p key r c e a o h =
    simp (release, e) (simp a (simp o (simp (release_active, h) refl)))

obliged_again :
    (p : SharedClientPool) (key : ℕ) (o : ReferenceRecord)
    → find key p.references ≡ some o
    → is_active o ≡ false
    → release key p ≡ (some o, p)
unfolding release
obliged_again p key o e a = simp (release, e) (simp a refl)

-- The release of the last active reference takes the client out of the pool and leaves an obligation
-- to close that very client, which stays in the pool's references: a second release of the same
-- reference changes nothing and gives the same obligation again, so that a failed close is retried.
last_release :
    (p : SharedClientPool) (key : ℕ) (r : ReferenceRecord) (c : PooledClient)
    → find key p.references ≡ some r
    → is_active r ≡ true
    → any (is_other_active key) p.references ≡ false
    → p.pooled ≡ some c
    → (o : ReferenceRecord) × (q : SharedClientPool) × (release key p ≡ (some o, q))
      × (o.client ≡ c.client)
      × (q.pooled ≡ none)
      × (find key q.references ≡ some o)
      × (release key q ≡ (some o, q))
unfolding oblige
last_release p key r c e a o h =
    let (obligation, q) = oblige key r c p.references p in
    let found : find key q.references ≡ some obligation = find-assign key obligation p.references in
    (
      obligation,
      q,
      release_last_eq p key r c e a o h,
      refl,
      refl,
      found,
      obliged_again q key obligation found refl,
    )

commit_borrowed :
    (p : SharedClientPool) (key : ℕ) (r : ReferenceRecord)
    → find key p.references ≡ some r
    → is_installed r ≡ false
    → commit key p ≡ ok (installed_in key r p)
unfolding commit
commit_borrowed p key r e i = simp (commit, e) (simp i refl)

commit_installed :
    (p : SharedClientPool) (key : ℕ) (r : ReferenceRecord)
    → find key p.references ≡ some r
    → is_installed r ≡ true
    → commit key p ≡ err "client_borrow_already_committed"
unfolding commit
commit_installed p key r e i = simp (commit, e) (simp i refl)

fresh_borrow :
    (p : SharedClientPool) (c : PooledClient) (fingerprint : String)
    → p.pooled ≡ some c
    → str_eq c.fingerprint fingerprint ≡ true
    → (b : ClientBorrow) × (q q' : SharedClientPool) × (look_up fingerprint p ≡ ok (some b, q))
      × (b.client ≡ c.client)
      × (q.pooled ≡ some c)
      × (commit b.reference q ≡ ok q')
      × (commit b.reference q' ≡ err "client_borrow_already_committed")
unfolding look_up retain
fresh_borrow p c fingerprint e h =
    let (b, q) = retain c.client p in
    let made : ReferenceRecord = borrowed_record c.client p in
    let q' = installed_in p.fresh made q in
    let found : find p.fresh q.references ≡ some made = find-assign p.fresh made p.references in
    let found' : find p.fresh q'.references ≡ some (installed_record made q) =
      find-assign p.fresh (installed_record made q) q.references in
    (
      b,
      q,
      q',
      simp (look_up, e) (simp h refl),
      refl,
      e,
      commit_borrowed q p.fresh made found refl,
      commit_installed q' p.fresh (installed_record made q) found' refl,
    )

-- A borrower gets the pooled client, with a reference of its own that can be committed once, if its
-- fingerprint is that of the client; another fingerprint is refused.
borrow_shares :
    (p : SharedClientPool) (c : PooledClient) (fingerprint : String)
    → p.pooled ≡ some c
    → ((c.fingerprint ≢ fingerprint) × (look_up fingerprint p ≡ err "codex_executable_changed"))
      ⊎ ((c.fingerprint ≡ fingerprint)
          × ((b : ClientBorrow) × (q q' : SharedClientPool) × (look_up fingerprint p
                ≡ ok (some b, q))
              × (b.client ≡ c.client)
              × (q.pooled ≡ some c)
              × (commit b.reference q ≡ ok q')
              × (commit b.reference q' ≡ err "client_borrow_already_committed")))
unfolding look_up
borrow_shares p c fingerprint e = elim (Bool-cases (str_eq c.fingerprint fingerprint)) [
  | inr h ↦
      inl
        (λ same. ground (arith, eq_iff c.fingerprint fingerprint), simp (look_up, e) (simp h refl))
  | inl h ↦ inr ((eq_iff c.fingerprint fingerprint).0 h, fresh_borrow p c fingerprint e h)
]
