-- ===== src/WorkOn/Tests.antt =====
-- One ticket from its issue to its use, and the theorems at concrete inputs.
use Prim.Native.String.{◌++◌ as text_append}
use codex_must_work.Prelude.{
  ◌≡◌, refl, String, true, false, none, [], ◌∷◌, get, put, ok, err, arith, Dict, Bool, not, str_eq,
}
use codex_must_work.WorkOn.{
  ActivationIdentity, ActivationTicketRecord, activation_identity_is_valid,
  same_activation_identity, issue, consume, is_expired, capability_binding, rejection_reason,
  consumed_once, issue-consume,
}

-- Of the texts below, only "é" is not ASCII.
abbrev is_ascii : String → Bool
is_ascii s = not (str_eq s "é")

-- Digests that name their input.
abbrev path : String → String
path s = s

abbrev derive : String → String
derive s = text_append "capability of " s

abbrev binding : String → String
binding s = text_append "binding of " s

abbrev identity : ActivationIdentity
identity = record { session_id = "s"; turn_id = "t"; transcript_path = "p" }

abbrev ticket : ActivationTicketRecord
ticket = record {
  identity = identity;
  capability_binding = "binding of capability of s";
  issued_at = 100;
  nonce = "n";
  consumed = false;
}

abbrev issued : Dict ActivationTicketRecord
issued = ("s", ticket) ∷ []

abbrev after : Dict ActivationTicketRecord
after = ("s", record ticket { consumed = true }) ∷ []

consumed_ok : consume is_ascii path derive binding identity "capability of s" 220 issued ≡ ok after
unfolding consume activation_identity_is_valid is_expired same_activation_identity get put
    capability_binding rejection_reason
consumed_ok = refl

-- Another session has a ticket in the meantime.
abbrev kept : Dict ActivationTicketRecord
kept = ("r", ticket) ∷ after

is_kept : get kept "s" ≡ get after "s"
unfolding get
is_kept = refl

consumed_once_example :
    (consume is_ascii path derive binding identity "other" 230 kept
      ≡ err "work_on_authorization_required")
    × (issue is_ascii path derive binding identity 230 "m" kept ≡ ok (false, kept))
consumed_once_example =
    consumed_once is_ascii path derive binding identity "capability of s" "other" "m" 220 230 issued
      after kept consumed_ok is_kept

not_ascii :
    issue is_ascii path derive binding
      (record identity { transcript_path = "é" })
      230
      "m"
      (("s", record ticket { identity = record identity { transcript_path = "é" } }) ∷ [])
    ≡ err "TypeError"
unfolding issue activation_identity_is_valid same_activation_identity get
not_ascii = refl

identity_valid : activation_identity_is_valid identity ≡ true
unfolding activation_identity_is_valid
identity_valid = refl

abbrev no_tickets : Dict ActivationTicketRecord
no_tickets = []

no_ticket : get no_tickets "s" ≡ none
unfolding get
no_ticket = refl

issue-consume_example :
    (issued after : Dict ActivationTicketRecord) × (issue is_ascii path derive binding identity 100
        "n" no_tickets
      ≡ ok (true, issued))
    × (consume is_ascii path derive binding identity (derive "s") 220 issued ≡ ok after)
issue-consume_example =
    issue-consume is_ascii path derive binding identity "n" 100 220 no_tickets refl refl refl refl
      refl identity_valid no_ticket (omega arith) (omega arith)
