-- ===== src/ClientPool/Reachable.antt =====
-- The pools that an orderly interleaving of borrowers, releases and closes reaches.
use mathlib.Core.List.{List}
use codex_must_work.Prelude.{
  ◌&&◌, ◌==◌, all, [], ◌∷◌, ℕ, ◌≡◌, refl, String, Bool, true, false, Option, none, some, is_none,
  inl, inr, any, arith,
}
use codex_must_work.ClientPool.References.{ReferenceRecord, is_active, find, Reference}
use codex_must_work.ClientPool.{
  ◌∷◌, PooledClient, SharedClientPool, init, look_up, publish, leave, give_up, commit, release,
  release_installed, begin_close, end_close, holds,
}
use codex_must_work.ClientPool.Fits.{fits, closing-not-held}
use codex_must_work.ClientPool.Invariant.{
  find-bound, IsBound, after, looked, is_new, init-IsBound, commit-IsBound, release-IsBound,
  release_installed-IsBound, look_up-IsBound, publish-IsBound, give_up-IsBound, begin_close-same,
  end_close-IsBound,
}
use codex_must_work.ClientPool.Exclusion.{
  IsPool, retain-IsPool, release-IsPool, look_up-IsPool, commit-IsPool, release_installed-IsPool,
  end_close-IsPool,
}

-- One step of a thread in an orderly interleaving. A borrower publishes while it has the reservation.
-- Two things are asked of the threads that the code does not enforce: no borrower takes the reservation
-- between the failure of another and its handler, so that `leave` and `give_up` are one step (any other
-- step of another thread may come before or after them), and a borrow is committed only before it is
-- released. A close is of an obligation that is still the record.
pub data Step (p : SharedClientPool) : SharedClientPool → Type 0 where
  looks_up : (fingerprint : String) → p.reserved ≡ false → Step p (looked p (look_up fingerprint p))
  publishes :
      (client : ℕ) (fingerprint : String)
      → p.reserved ≡ true
      → is_new client p ≡ true
      → Step p (publish client fingerprint p).1
  gives_up : p.reserved ≡ true → Step p (give_up (leave p)).1
  commits :
      (key : ℕ) (r : ReferenceRecord)
      → find key p.references ≡ some r
      → is_active r ≡ true
      → Step p (after p (commit key p))
  releases : (key : ℕ) → Step p (release key p).1
  releases_installed : (count : ℕ) → Step p (after p (release_installed count p))
  begins_close :
      (key : ℕ) (o : ReferenceRecord)
      → find key p.references ≡ some o
      → is_active o ≡ false
      → Step p (begin_close key o p).1
  ends_close :
      (key : ℕ) (o : ReferenceRecord)
      → find key p.references ≡ some o
      → is_active o ≡ false
      → Step p (end_close key o p)

-- An active reference to the client.
abbrev pub is_active_for : ℕ → Reference → Bool
is_active_for client (k, r) = is_active r && r.client == client

pub data Reachable : SharedClientPool → Type 0 where
  starts : Reachable init
  steps : {p q : SharedClientPool} → Reachable p → Step p q → Reachable q

reserved-idle : (p : SharedClientPool) → IsPool p → p.reserved ≡ true → is_none p.pooled ≡ true
reserved-idle p b e = elim b.alone [ inl f ↦ cc | inr f ↦ f ]

Step-IsBound : {p q : SharedClientPool} → Step p q → IsPool p → IsBound p → IsBound q
Step-IsBound {p} (looks_up fingerprint free) i b = look_up-IsBound fingerprint p b
Step-IsBound {p} (publishes client fingerprint r n) i b =
    publish-IsBound client fingerprint p b (reserved-idle p i r) n
Step-IsBound {p} (gives_up r) i b = give_up-IsBound p b (reserved-idle p i r)
Step-IsBound {p} (commits key r e a) i b = commit-IsBound key p r b e a
Step-IsBound {p} (releases key) i b = release-IsBound key p b
Step-IsBound {p} (releases_installed count) i b = release_installed-IsBound count p b
Step-IsBound {p} (begins_close key o e a) i b = rw (begin_close-same key o p b e a) b
Step-IsBound {p} (ends_close key o e a) i b = end_close-IsBound key o p b i.is_dict e a

Step-IsPool : {p q : SharedClientPool} → Step p q → IsBound p → IsPool p → IsPool q
unfolding publish leave give_up
Step-IsPool {p} (looks_up fingerprint free) i b = look_up-IsPool fingerprint p b
Step-IsPool {p} (publishes client fingerprint r n) i b = record {
  is_dict = (retain-IsPool client p b).is_dict;
  alone = inl refl;
}
Step-IsPool {p} (gives_up r) i b = record { is_dict = b.is_dict; alone = inl refl }
Step-IsPool {p} (commits key r e a) i b = commit-IsPool key p b
Step-IsPool {p} (releases key) i b = release-IsPool key p b
Step-IsPool {p} (releases_installed count) i b = release_installed-IsPool count p b
Step-IsPool {p} (begins_close key o e a) i b = rw (begin_close-same key o p i e a) b
Step-IsPool {p} (ends_close key o e a) i b = end_close-IsPool key o p b

Reachable-IsPool : {p : SharedClientPool} → Reachable p → IsPool p × IsBound p
Reachable-IsPool starts = (record { is_dict = refl; alone = inl refl }, init-IsBound)
Reachable-IsPool (steps before s) =
    let (i, b) = Reachable-IsPool before in (Step-IsPool s b i, Step-IsBound s i b)

-- In every pool that an orderly interleaving of borrowers, releases and closes reaches, every active
-- reference is to the pooled client, no closing one is, and a client is pooled only while a reference
-- is active. Orderly means that no borrower takes the reservation between the failure of another and
-- its handler, and that no borrow is committed after its release.
pub Reachable-IsBound : (p : SharedClientPool) → Reachable p → IsBound p
Reachable-IsBound p way = (Reachable-IsPool way).1

to_other :
    (c : ℕ) (pooled : Option PooledClient) (refs : List Reference)
    → holds pooled c ≡ false
    → all (fits pooled) refs ≡ true
    → any (is_active_for c) refs ≡ false
to_other c pooled [] h f = refl
to_other c none ((k, r) ∷ refs) h f = ground (arith, to_other c none refs)
to_other c (some d) ((k, r) ∷ refs) h f = ground (arith, to_other c (some d) refs)

-- In a pool that an orderly interleaving reaches, a client that a close takes is not the pooled one and
-- no active reference is to it; nothing else of the pool changes when the close starts. Orderly means
-- that no borrower takes the reservation between the failure of another and its handler, and that no
-- borrow is committed after its release.
pub closed_only_idle :
    (p : SharedClientPool) (key : ℕ) (o : ReferenceRecord)
    → Reachable p
    → find key p.references ≡ some o
    → is_active o ≡ false
    → (begin_close key o p ≡ (some o.client, p))
      × (holds p.pooled o.client ≡ false)
      × (any (is_active_for o.client) p.references ≡ false)
closed_only_idle p key o way e a =
    let b = Reachable-IsBound p way in
    let free = closing-not-held p.pooled key o (find-bound p key o b e) a in
    (begin_close-same key o p b e a, free, to_other o.client p.pooled p.references free b.bound)
