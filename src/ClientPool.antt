-- ===== src/ClientPool.antt =====
-- The daemon's shared app-server client: scripts/daemon_client_pool.py. A body under the pool's lock
-- is one function; between them other threads run. The reservation of
-- scripts/daemon_reservation.py is the flag `reserved`, which one borrower holds from its look-up until
-- its factory has answered.
pub mod References
pub mod Keys
pub mod Fits
pub mod Invariant
pub mod Exclusion
pub mod Reachable
pub mod Closing
mod Tests
use codex_must_work.Prelude.{
  ℕ, ◌+◌, String, Bool, true, false, not, ◌&&◌, Option, none, some, List, [], ◌∷◌, ◌++◌, leb, ltb,
  ◌==◌, str_eq, if◌then◌else◌, any, length, keep, count_if, Result, ok, err,
}
use codex_must_work.ClientPool.References.{
  PoolReferenceState, borrowed, installed, closing, ReferenceRecord, is_active, is_installed,
  Reference, find, assign, drop, drop_all, member, take,
}

pub record PooledClient : Type 0 where
  pub client : ℕ
  pub fingerprint : String

-- A reference, a record and a gate are objects, each named by the number it was made with.
pub record SharedClientPool : Type 0 where
  pub pooled : Option PooledClient
  pub references : List Reference
  pub reserved : Bool
  pub fresh : ℕ

abbrev pub init : SharedClientPool
init = record { pooled = none; references = []; reserved = false; fresh = 0 }

pub record ClientBorrow : Type 0 where
  pub client : ℕ
  pub reference : ℕ

-- `self._references[reference] = _ReferenceRecord(client, BORROWED, CloseGate())`, and the borrow.
unfoldable pub retain : ℕ → SharedClientPool → ClientBorrow × SharedClientPool
unfolding assign
retain client p =
    let made : ReferenceRecord = record {
      client = client;
      state = borrowed;
      close_gate = p.fresh;
      serial = p.fresh;
    } in
    (
      record { client = client; reference = p.fresh },
      record p { references = assign p.fresh made p.references; fresh = p.fresh + 1 },
    )

-- `borrow` up to the factory: a borrow of the pooled client, or `none` where this caller has to make
-- one and keeps the reservation.
unfoldable pub look_up : String → SharedClientPool → Result (Option ClientBorrow × SharedClientPool)
unfolding retain
look_up fingerprint p = elim p.pooled [
  | none ↦ ok (none, record p { reserved = true })
  | some c ↦
      if not (str_eq c.fingerprint fingerprint)
      then err "codex_executable_changed"
      else (let (b, q) = retain c.client p in ok (some b, q))
]

-- `borrow` after the factory has made `client`.
unfoldable pub publish : ℕ → String → SharedClientPool → ClientBorrow × SharedClientPool
unfolding retain
publish client fingerprint p = retain client (record p {
  pooled = some (record { client = client; fingerprint = fingerprint });
  reserved = false;
})

-- `borrow` where the factory raised: the reservation is left first, and any thread may take it before
-- the handler runs.
unfoldable pub leave : SharedClientPool → SharedClientPool
leave p = record p { reserved = false }

-- The handler of `borrow`: whatever client is pooled by then is to be closed.
unfoldable pub give_up : SharedClientPool → Option ℕ × SharedClientPool
give_up p = (elim p.pooled [ none ↦ none | some c ↦ some c.client ], record p { pooled = none })

unfoldable pub commit : ℕ → SharedClientPool → Result SharedClientPool
unfolding assign
commit reference p = elim (find reference p.references) [
  | none ↦ err "client_borrow_already_released"
  | some r ↦
      if is_installed r
      then err "client_borrow_already_committed"
      else ok (record p {
        references =
            assign reference (record r { state = installed; serial = p.fresh }) p.references;
        fresh = p.fresh + 1;
      })
]

-- Another reference than this one that is not closing.
abbrev pub is_other_active : ℕ → Reference → Bool
is_other_active reference (k, r) = not (k == reference) && is_active r

-- `_ReferenceRecord(pooled.client, CLOSING, record.close_gate)`, and the pool that has it.
unfoldable pub oblige :
    ℕ
    → ReferenceRecord
    → PooledClient
    → List Reference
    → SharedClientPool
    → ReferenceRecord × SharedClientPool
unfolding assign
oblige reference r c references p =
    let obligation : ReferenceRecord = record {
      client = c.client;
      state = closing;
      close_gate = r.close_gate;
      serial = p.fresh;
    } in
    (
      obligation,
      record p {
        pooled = none;
        references = assign reference obligation references;
        fresh = p.fresh + 1;
      },
    )

-- `_release_active`, for the record `r` of the reference.
unfoldable pub release_active :
    ℕ → ReferenceRecord → SharedClientPool → Option ReferenceRecord × SharedClientPool
unfolding oblige drop
release_active reference r p =
    let dropped = record p { references = drop reference p.references } in
    if any (is_other_active reference) p.references then (none, dropped) else elim p.pooled [
      | none ↦ (none, dropped)
      | some c ↦ (let (obligation, q) = oblige reference r c p.references p in (some obligation, q))
    ]

-- `release` up to the close, with the close obligation that it leaves.
unfoldable pub release : ℕ → SharedClientPool → Option ReferenceRecord × SharedClientPool
unfolding release_active
release reference p = elim (find reference p.references) [
  | none ↦ (none, p)
  | some r ↦ if is_active r then release_active reference r p else (some r, p)
]

-- The installed references, oldest first.
unfoldable pub installed_references : List Reference → List Reference
installed_references refs = keep (λ e. is_installed e.1) refs

-- `selected[-1]` and `selected[:-1]` for a selection that starts with `e`.
unfoldable pub last_of : Reference → List Reference → Reference
last_of e [] = e
last_of e (d ∷ es) = last_of d es

unfoldable pub all_but_last : Reference → List Reference → List Reference
all_but_last e [] = []
all_but_last e (d ∷ es) = e ∷ all_but_last d es

abbrev pub is_unselected_active : List Reference → Reference → Bool
is_unselected_active selected (k, r) = not (member k selected) && is_active r

-- The selected references where no other is active.
unfoldable pub release_last : Reference → List Reference → SharedClientPool → SharedClientPool
unfolding oblige drop_all drop
release_last e es p =
    let references = drop_all (all_but_last e es) p.references in
    let last = last_of e es in
    elim p.pooled [
      | none ↦ record p { references = drop last.0 references }
      | some c ↦ (oblige last.0 last.1 c references p).1
    ]

abbrev pub release_selected : List Reference → SharedClientPool → SharedClientPool
release_selected [] p = p
release_selected (e ∷ es) p =
    if any (is_unselected_active (e ∷ es)) p.references
    then record p { references = drop_all (e ∷ es) p.references }
    else release_last e es p

-- `release_installed` up to the closes.
unfoldable pub release_installed : ℕ → SharedClientPool → Result SharedClientPool
unfolding installed_references release_last
release_installed count p =
    let candidates = installed_references p.references in
    if ltb (length candidates) count
    then err "client_install_underflow"
    else ok (release_selected (take count candidates) p)

unfoldable pub reference_counts : SharedClientPool → ℕ × ℕ × ℕ
reference_counts p = (
  count_if (λ e. is_active e.1 && not (is_installed e.1)) p.references,
  count_if (λ e. is_installed e.1) p.references,
  count_if (λ e. not (is_active e.1)) p.references,
)

unfoldable pub get_existing : SharedClientPool → Option ℕ
get_existing p = elim p.pooled [ none ↦ none | some c ↦ some c.client ]

-- `self._references.get(reference) is obligation`
abbrev pub is_current : ℕ → ReferenceRecord → SharedClientPool → Bool
is_current reference obligation p = elim (find reference p.references) [
  | none ↦ false
  | some r ↦ r.serial == obligation.serial
]

abbrev pub holds : Option PooledClient → ℕ → Bool
holds none client = false
holds (some c) client = c.client == client

-- `_finish_close` up to the gate: the client that is to be closed.
unfoldable pub begin_close : ℕ → ReferenceRecord → SharedClientPool → Option ℕ × SharedClientPool
begin_close reference obligation p =
    if not (is_current reference obligation p) then (none, p) else (
      some obligation.client,
      if holds p.pooled obligation.client then record p { pooled = none } else p,
    )

-- `_finish_close` after the gate has closed the client.
unfoldable pub end_close : ℕ → ReferenceRecord → SharedClientPool → SharedClientPool
unfolding drop
end_close reference obligation p =
    if is_current reference obligation p
    then record p { references = drop reference p.references }
    else p
