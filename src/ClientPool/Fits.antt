-- ===== src/ClientPool/Fits.antt =====
-- References against the pooled client: what an update of the dict does to them.
use codex_must_work.Prelude.{
  ℕ, ◌≡◌, refl, Bool, true, false, not, ◌||◌, Option, none, some, List, [], ◌∷◌, ◌==◌, arith,
  is_none, if◌then◌else◌, any, all,
}
use codex_must_work.ClientPool.References.{
  installed, ReferenceRecord, is_active, Reference, find, assign, drop, drop_all, member,
}
use codex_must_work.ClientPool.Keys.{no_repeats, drop-absent}
use codex_must_work.ClientPool.{
  PooledClient, is_other_active, last_of, all_but_last, is_unselected_active, holds,
}

-- An active reference is to the pooled client, a closing one to another client.
abbrev pub fits : Option PooledClient → Reference → Bool
fits none (k, r) = not (is_active r)
fits (some c) (k, r) = if is_active r then c.client == r.client else not (c.client == r.client)

abbrev pub active : Reference → Bool
active (k, r) = is_active r

pub all-drop :
    (test : Reference → Bool) (key : ℕ) (refs : List Reference)
    → all test refs ≡ true
    → all test (drop key refs) ≡ true
unfolding drop
all-drop test key [] h = refl
all-drop test key ((k, r) ∷ refs) h = ground (arith, all-drop test key refs)

pub all-drop_all :
    (test : Reference → Bool) (ks : List Reference) (refs : List Reference)
    → all test refs ≡ true
    → all test (drop_all ks refs) ≡ true
unfolding drop_all
all-drop_all test ks [] h = refl
all-drop_all test ks ((k, r) ∷ refs) h = ground (arith, all-drop_all test ks refs)

pub all-assign :
    (test : Reference → Bool) (key : ℕ) (r : ReferenceRecord) (refs : List Reference)
    → all test refs ≡ true
    → ((k : ℕ) → test (k, r) ≡ true)
    → all test (assign key r refs) ≡ true
unfolding assign
all-assign test key r [] h t = ground (arith, t key)
all-assign test key r ((k, q) ∷ refs) h t =
    ground (arith, t k, all-drop test key refs, all-assign test key r refs)

pub any-assign :
    (key : ℕ) (r : ReferenceRecord) (refs : List Reference)
    → is_active r ≡ true
    → any active (assign key r refs) ≡ true
unfolding assign
any-assign key r [] h = ground arith
any-assign key r ((k, q) ∷ refs) h = ground (arith, any-assign key r refs)

-- What a record that is found makes of the invariant.
pub find-fits :
    (pooled : Option PooledClient) (key : ℕ) (r : ReferenceRecord) (refs : List Reference)
    → find key refs ≡ some r
    → all (fits pooled) refs ≡ true
    → fits pooled (key, r) ≡ true
unfolding find
find-fits pooled key r [] e h = cc
find-fits none key r ((k, q) ∷ refs) e h = ground (arith, find-fits none key r refs)
find-fits (some c) key r ((k, q) ∷ refs) e h = ground (arith, find-fits (some c) key r refs)

-- Without another active reference, dropping or closing this one leaves none active.
pub all-drop_last :
    (key : ℕ) (refs : List Reference)
    → any (is_other_active key) refs ≡ false
    → all (fits none) (drop key refs) ≡ true
unfolding drop
all-drop_last key [] h = refl
all-drop_last key ((k, q) ∷ refs) h = ground (arith, all-drop_last key refs)

pub all-assign_last :
    (key : ℕ) (r : ReferenceRecord) (refs : List Reference)
    → any (is_other_active key) refs ≡ false
    → is_active r ≡ false
    → all (fits none) (assign key r refs) ≡ true
unfolding assign
all-assign_last key r [] h a = ground arith
all-assign_last key r ((k, q) ∷ refs) h a =
    ground (arith, all-drop_last key refs, all-assign_last key r refs)

pub any-drop_other :
    (key : ℕ) (refs : List Reference)
    → any (is_other_active key) refs ≡ true
    → any active (drop key refs) ≡ true
unfolding drop
any-drop_other key [] h = cc
any-drop_other key ((k, q) ∷ refs) h = ground (arith, any-drop_other key refs)

-- A new client is not that of a closing reference.
pub all-new :
    (c : PooledClient) (refs : List Reference)
    → all (fits none) refs ≡ true
    → all (λ (e : Reference). not (c.client == e.1.client)) refs ≡ true
    → all (fits (some c)) refs ≡ true
all-new c [] h n = refl
all-new c ((k, r) ∷ refs) h n = ground (arith, all-new c refs)

pub none-fits :
    (pooled : Option PooledClient) (refs : List Reference)
    → is_none pooled ≡ true
    → all (fits pooled) refs ≡ true
    → all (fits none) refs ≡ true
none-fits none refs e h = h
none-fits (some c) refs e h = cc

pub fits-installed :
    (pooled : Option PooledClient) (key k n : ℕ) (r : ReferenceRecord)
    → is_active r ≡ true
    → fits pooled (key, r) ≡ true
    → fits pooled (k, record r { state = installed; serial = n }) ≡ true
fits-installed none key k n r a f = ground arith
fits-installed (some c) key k n r a f = ground arith

-- The selected references leave, and the others are closing.
pub any-drop_all :
    (ks : List Reference) (refs : List Reference)
    → any (is_unselected_active ks) refs ≡ true
    → any active (drop_all ks refs) ≡ true
unfolding drop_all
any-drop_all ks [] h = cc
any-drop_all ks ((k, r) ∷ refs) h = ground (arith, any-drop_all ks refs)

pub member-last :
    (key : ℕ) (e : Reference) (es : List Reference)
    → member key (e ∷ es) ≡ (member key (all_but_last e es) || (last_of e es).0 == key)
unfolding all_but_last last_of
member-last key (k, r) [] = ground arith
member-last key (k, r) (d ∷ es) = ground (arith, member-last key d es)

pub others-drop_all :
    (e : Reference) (es refs : List Reference)
    → any (is_unselected_active (e ∷ es)) refs ≡ false
    → any (is_other_active (last_of e es).0) (drop_all (all_but_last e es) refs) ≡ false
unfolding drop_all
others-drop_all e es [] h = refl
others-drop_all e es ((j, r) ∷ refs) h =
    ground (arith, member-last j e es, others-drop_all e es refs)

pub closing-not-held :
    (pooled : Option PooledClient) (key : ℕ) (o : ReferenceRecord)
    → fits pooled (key, o) ≡ true
    → is_active o ≡ false
    → holds pooled o.client ≡ false
closing-not-held none key o f a = refl
closing-not-held (some c) key o f a = ground arith

-- Without repeated keys, the end of a close takes no active reference away.
pub any-drop_closing :
    (key : ℕ) (o : ReferenceRecord) (refs : List Reference)
    → no_repeats refs ≡ true
    → find key refs ≡ some o
    → is_active o ≡ false
    → any active refs ≡ true
    → any active (drop key refs) ≡ true
unfolding drop find
any-drop_closing key o [] d e a h = cc
any-drop_closing key o ((k, r) ∷ refs) d e a h =
    ground (arith, drop-absent k refs, drop-absent key refs, any-drop_closing key o refs)
