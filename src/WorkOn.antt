-- ===== src/WorkOn.antt =====
-- The one-time authorizations of scripts/work_on_activation.py, with scripts/work_on_identity.py. The
-- tickets are the files of the store by their names; a failure of a file is not modelled. Time is in
-- seconds.
mod Tests
use Prim.Native.String.{count}
use codex_must_work.Prelude.{
  Option-cases, Bool-cases, ◌∙◌, ap, inl, inr, ℕ, ◌+◌, ◌≤◌, ◌≡◌, refl, String, Bool, true, false,
  not, ◌&&◌, ◌||◌, Option, none, some, ltb, leb, str_eq, eq_iff, eq_refl, if◌then◌else◌, Dict, get,
  put, get-put, Result, ok, err, arith,
}

pub record ActivationIdentity : Type 0 where
  pub session_id : String
  pub turn_id : String
  pub transcript_path : String

pub record ActivationTicketRecord : Type 0 where
  pub identity : ActivationIdentity
  pub capability_binding : String
  pub issued_at : ℕ
  pub nonce : String
  pub consumed : Bool

abbrev pub max_text_chars : ℕ
max_text_chars = 65536

abbrev pub ttl_seconds : ℕ
ttl_seconds = 120

abbrev pub is_text : String → Bool
is_text value = not (str_eq value "") && leb (count value) max_text_chars

unfoldable pub activation_identity_is_valid : ActivationIdentity → Bool
activation_identity_is_valid i =
    is_text i.session_id && (is_text i.turn_id && is_text i.transcript_path)

-- `hmac.compare_digest` on two texts, of which it wants that they are ASCII; `is_ascii` is `str.isascii`.
abbrev pub compare_digest : (String → Bool) → String → String → Result Bool
compare_digest is_ascii l r = if is_ascii l && is_ascii r then ok (str_eq l r) else err "TypeError"

-- `and`, where either side may raise.
abbrev pub and_then : Result Bool → Result Bool → Result Bool
and_then (ok true) r = r
and_then (ok false) r = ok false
and_then (err reason) r = err reason

unfoldable pub same_activation_identity :
    (String → Bool) → ActivationIdentity → ActivationIdentity → Result Bool
same_activation_identity is_ascii l r =
    and_then (compare_digest is_ascii l.session_id r.session_id) (
      and_then (compare_digest is_ascii l.turn_id r.turn_id)
        (compare_digest is_ascii l.transcript_path r.transcript_path))

-- `_expired`
unfoldable pub is_expired : ActivationTicketRecord → ℕ → Bool
is_expired t now = ltb now t.issued_at || ltb (t.issued_at + ttl_seconds) now

-- The file name of a session, the capability that the control key derives for it, and the binding of a
-- capability under that key: digests of `hashlib` and `hmac`.
module _ (is_ascii : String → Bool) (path derive_control_capability digest : String → String) where
  -- `_capability_binding`: a capability that is not ASCII cannot be encoded.
  unfoldable pub capability_binding : String → Result String
  capability_binding capability =
      if is_ascii capability
      then ok (digest capability)
      else err "work_on_authorization_state_invalid"

  abbrev pub ticket_for : ActivationIdentity → ℕ → String → String → ActivationTicketRecord
  ticket_for i now nonce binding = record {
    identity = i;
    capability_binding = binding;
    issued_at = now;
    nonce = nonce;
    consumed = false;
  }

  -- The write of a new ticket, with the binding of its capability.
  unfoldable pub issue_new :
      ActivationIdentity
      → ℕ
      → String
      → Result String
      → Dict ActivationTicketRecord
      → Result (Bool × Dict ActivationTicketRecord)
  unfolding put
  issue_new i now nonce (err reason) store = err reason
  issue_new i now nonce (ok binding) store =
      ok (true, put (path i.session_id) (ticket_for i now nonce binding) store)

  -- With a prior ticket, and whether it is for the same identity.
  abbrev pub issue_again :
      Result Bool
      → ActivationTicketRecord
      → ℕ
      → Dict ActivationTicketRecord
      → Result (Bool × Dict ActivationTicketRecord)
      → Result (Bool × Dict ActivationTicketRecord)
  issue_again (err reason) t now store issued = err reason
  issue_again (ok true) t now store issued = ok (not t.consumed && not (is_expired t now), store)
  issue_again (ok false) t now store issued = issued

  unfoldable pub issue :
      ActivationIdentity
      → ℕ
      → String
      → Dict ActivationTicketRecord
      → Result (Bool × Dict ActivationTicketRecord)
  unfolding issue_new
  issue i now nonce store =
      let prior = get store (path i.session_id) in
      let binding = capability_binding (derive_control_capability i.session_id) in
      let issued = issue_new i now nonce binding store in
      if not (activation_identity_is_valid i)
      then err "work_on_authorization_mismatch"
      else elim prior [
        | none ↦ issued
        | some t ↦ issue_again (same_activation_identity is_ascii t.identity i) t now store issued
      ]

  abbrev pub mismatch_unless : Result Bool → Result (Option String)
  mismatch_unless (err reason) = err reason
  mismatch_unless (ok true) = ok none
  mismatch_unless (ok false) = ok (some "work_on_authorization_mismatch")

  -- The comparison with the binding that is expected.
  abbrev pub compared :
      ActivationTicketRecord → ActivationIdentity → Result String → Result (Option String)
  compared t i (err reason) = err reason
  compared t i (ok expected) = mismatch_unless (
      and_then (same_activation_identity is_ascii t.identity i)
        (compare_digest is_ascii t.capability_binding expected))

  -- `_rejection_reason`
  unfoldable pub rejection_reason :
      ActivationTicketRecord → ActivationIdentity → String → ℕ → Result (Option String)
  rejection_reason t i capability now =
      let answer = compared t i (capability_binding capability) in
      if is_expired t now then ok (some "work_on_authorization_expired") else answer

  -- The write of the consumed ticket, unless it is rejected.
  abbrev pub consume_unless :
      Result (Option String)
      → String
      → ActivationTicketRecord
      → Dict ActivationTicketRecord
      → Result (Dict ActivationTicketRecord)
  consume_unless (err reason) key t store = err reason
  consume_unless (ok (some reason)) key t store = err reason
  consume_unless (ok none) key t store = ok (put key (record t { consumed = true }) store)

  unfoldable pub consume :
      ActivationIdentity
      → String
      → ℕ
      → Dict ActivationTicketRecord
      → Result (Dict ActivationTicketRecord)
  unfolding put rejection_reason
  consume i capability now store =
      let ticket = get store (path i.session_id) in
      if not (activation_identity_is_valid i)
      then err "work_on_authorization_mismatch"
      else elim ticket [
        | none ↦ err "work_on_authorization_required"
        | some t ↦
            if t.consumed
            then err "work_on_authorization_required"
            else consume_unless (rejection_reason t i capability now) (path i.session_id) t store
      ]

  put_found :
      (key : String) (t : ActivationTicketRecord) (store : Dict ActivationTicketRecord)
      → get (put key t store) key ≡ some t
  put_found key t store = ground (arith, get-put store key key t, eq_refl key)

  compare_digest-same : (s : String) → is_ascii s ≡ true → compare_digest is_ascii s s ≡ ok true
  compare_digest-same s a = simp (a, eq_refl s) refl

  same_refl :
      (i : ActivationIdentity)
      → is_ascii i.session_id ≡ true
      → is_ascii i.turn_id ≡ true
      → is_ascii i.transcript_path ≡ true
      → same_activation_identity is_ascii i i ≡ ok true
  unfolding same_activation_identity
  same_refl i a b c =
      simp (a, b, c, eq_refl i.session_id, eq_refl i.turn_id, eq_refl i.transcript_path) refl

  consume_live :
      (i : ActivationIdentity) (capability : String) (now : ℕ) (store : Dict ActivationTicketRecord)
      (t : ActivationTicketRecord)
      → activation_identity_is_valid i ≡ true
      → get store (path i.session_id) ≡ some t
      → t.consumed ≡ false
      → rejection_reason t i capability now ≡ ok none
      → consume i capability now store
        ≡ ok (put (path i.session_id) (record t { consumed = true }) store)
  unfolding consume
  consume_live i capability now store t v e c r =
      simp v (simp (consume, e) (simp c (simp (consume, r) refl)))

  consume_used :
      (i : ActivationIdentity) (capability : String) (now : ℕ) (store : Dict ActivationTicketRecord)
      (t : ActivationTicketRecord)
      → activation_identity_is_valid i ≡ true
      → get store (path i.session_id) ≡ some t
      → t.consumed ≡ true
      → consume i capability now store ≡ err "work_on_authorization_required"
  unfolding consume
  consume_used i capability now store t v e c = simp v (simp (consume, e) (simp c refl))

  issue_used :
      (i : ActivationIdentity) (nonce : String) (now : ℕ) (store : Dict ActivationTicketRecord)
      (t : ActivationTicketRecord)
      → activation_identity_is_valid i ≡ true
      → get store (path i.session_id) ≡ some t
      → same_activation_identity is_ascii t.identity i ≡ ok true
      → t.consumed ≡ true
      → issue i now nonce store ≡ ok (false, store)
  unfolding issue
  issue_used i nonce now store t v e m c = simp v (simp (issue, e) (simp (issue, m) (simp c refl)))

  and_then-true : (a b : Result Bool) → and_then a b ≡ ok true → (a ≡ ok true) × (b ≡ ok true)
  and_then-true (ok true) b h = (refl, h)
  and_then-true (ok false) b h = cc
  and_then-true (err reason) b h = cc

  mismatch_unless-none : (a : Result Bool) → mismatch_unless a ≡ ok none → a ≡ ok true
  mismatch_unless-none (ok true) h = refl
  mismatch_unless-none (ok false) h = cc
  mismatch_unless-none (err reason) h = cc

  compared-none :
      (t : ActivationTicketRecord) (i : ActivationIdentity) (expected : Result String)
      → compared t i expected ≡ ok none
      → same_activation_identity is_ascii t.identity i ≡ ok true
  compared-none t i (err reason) h = cc
  compared-none t i (ok binding) h =
      (and_then-true (same_activation_identity is_ascii t.identity i)
        (compare_digest is_ascii t.capability_binding binding) (mismatch_unless-none _ h)).0

  -- A ticket that is not rejected is for the same identity, and is not expired.
  not_rejected :
      (t : ActivationTicketRecord) (i : ActivationIdentity) (capability : String) (now : ℕ)
      → rejection_reason t i capability now ≡ ok none
      → (same_activation_identity is_ascii t.identity i ≡ ok true) × (is_expired t now ≡ false)
  unfolding rejection_reason
  not_rejected t i capability now h = elim (Bool-cases (is_expired t now)) [
    | inl late ↦ cc (rw late at h)
    | inr live ↦ (compared-none t i (capability_binding capability) (rw live at h), live)
  ]

  consume_unless-ok :
      (r : Result (Option String)) (key : String) (t : ActivationTicketRecord)
      (store after : Dict ActivationTicketRecord)
      → consume_unless r key t store ≡ ok after
      → (r ≡ ok none) × (after ≡ put key (record t { consumed = true }) store)
  consume_unless-ok (err reason) key t store after h = cc
  consume_unless-ok (ok (some reason)) key t store after h = cc
  consume_unless-ok (ok none) key t store after h = (refl, cc)

  -- A guard that did not raise.
  not_raised :
      (b : Bool) (reason : String) (r : Result (Dict ActivationTicketRecord))
      (after : Dict ActivationTicketRecord)
      → (if b then err reason else r) ≡ ok after
      → (b ≡ false) × (r ≡ ok after)
  not_raised true reason r after h = cc
  not_raised false reason r after h = (refl, h)

  -- A capability is consumed only where the identity is valid and the session has an unconsumed ticket
  -- for the same turn and transcript that is not expired; the ticket is then marked as consumed.
  consumed_by_ticket :
      (i : ActivationIdentity) (capability : String) (now : ℕ)
      (store after : Dict ActivationTicketRecord)
      → consume i capability now store ≡ ok after
      → (activation_identity_is_valid i ≡ true)
        × ((t : ActivationTicketRecord) × (get store (path i.session_id) ≡ some t)
            × (t.consumed ≡ false)
            × (same_activation_identity is_ascii t.identity i ≡ ok true)
            × (is_expired t now ≡ false)
            × (after ≡ put (path i.session_id) (record t { consumed = true }) store))
  unfolding consume
  consumed_by_ticket i capability now store after h =
      let (valid, rest) = not_raised (not (activation_identity_is_valid i)) _ _ after h in
      elim (Option-cases (get store (path i.session_id))) [
        | inl e ↦ cc (rw e at rest)
        | inr (t, e) ↦
            let (live, last) = not_raised t.consumed _ _ after (rw e at rest) in
            let (r, eq) =
              consume_unless-ok (rejection_reason t i capability now) (path i.session_id) t store
                after last in
            let (same, fresh) = not_rejected t i capability now r in
            (ground (arith, valid), (t, e, live, same, fresh, eq))
      ]

  -- A ticket authorizes one start: once its capability was consumed, and as long as the session's file
  -- keeps that ticket, whatever happens to the tickets of other sessions, the same turn can neither
  -- consume again, with any capability, nor be issued another ticket. Only a ticket for another turn or
  -- transcript of the session replaces it.
  pub consumed_once :
      (i : ActivationIdentity) (capability other nonce : String) (now later : ℕ)
      (store after kept : Dict ActivationTicketRecord)
      → consume i capability now store ≡ ok after
      → get kept (path i.session_id) ≡ get after (path i.session_id)
      → (consume i other later kept ≡ err "work_on_authorization_required")
        × (issue i later nonce kept ≡ ok (false, kept))
  consumed_once i capability other nonce now later store after kept h k =
      let (valid, (t, e, live, same, fresh, eq)) =
        consumed_by_ticket i capability now store after h in
      let used = record t { consumed = true } in
      let found : get kept (path i.session_id) ≡ some used =
        k ∙ ap (λ s. get s (path i.session_id)) eq ∙ put_found (path i.session_id) used store in
      (
        consume_used i other later kept used valid found refl,
        issue_used i nonce later kept used valid found same refl,
      )

  -- A ticket that is issued for a turn of a session without a ticket is consumed by the capability that
  -- the control key derives for the session, at any time up to two minutes later, where the identity is
  -- ASCII: the capability and the digests always are.
  pub issue-consume :
      (i : ActivationIdentity) (nonce : String) (now later : ℕ)
      (store : Dict ActivationTicketRecord)
      → is_ascii (derive_control_capability i.session_id) ≡ true
      → is_ascii (digest (derive_control_capability i.session_id)) ≡ true
      → is_ascii i.session_id ≡ true
      → is_ascii i.turn_id ≡ true
      → is_ascii i.transcript_path ≡ true
      → activation_identity_is_valid i ≡ true
      → get store (path i.session_id) ≡ none
      → now ≤ later
      → later ≤ now + ttl_seconds
      → (issued after : Dict ActivationTicketRecord) × (issue i now nonce store ≡ ok (true, issued))
        × (consume i (derive_control_capability i.session_id) later issued ≡ ok after)
  unfolding issue issue_new rejection_reason is_expired capability_binding
  issue-consume i nonce now later store c d s t p v e a b =
      let key = derive_control_capability i.session_id in
      let ticket = ticket_for i now nonce (digest key) in
      let issued = put (path i.session_id) ticket store in
      let found = put_found (path i.session_id) ticket store in
      let early : ltb later now ≡ false = ground arith in
      let late : ltb (now + ttl_seconds) later ≡ false = ground arith in
      let rejected : rejection_reason ticket i key later ≡ ok none =
        simp (early, late, c, same_refl i s t p, compare_digest-same (digest key) d) refl in
      (
        issued,
        put (path i.session_id) (record ticket { consumed = true }) issued,
        simp v (simp e (simp c refl)),
        consume_live i key later issued ticket v found refl rejected,
      )
