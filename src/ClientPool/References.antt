-- ===== src/ClientPool/References.antt =====
-- The references of scripts/daemon_client_pool.py: its dict, oldest entry first.
use codex_must_work.Prelude.{
  ℕ, zero, suc, Bool, true, false, not, ◌||◌, Option, none, some, List, [], ◌∷◌, ◌==◌,
  if◌then◌else◌, keep,
}

pub data PoolReferenceState : Type 0 where
  borrowed installed closing : PoolReferenceState

pub record ReferenceRecord : Type 0 where
  pub client : ℕ
  pub state : PoolReferenceState
  pub close_gate : ℕ
  pub serial : ℕ

abbrev pub Reference : Type 0
Reference = ℕ × ReferenceRecord

-- `record.state is not CLOSING` and `record.state is INSTALLED`
abbrev pub is_active : ReferenceRecord → Bool
is_active r = elim r.state [ closing ↦ false | _ ↦ true ]

abbrev pub is_installed : ReferenceRecord → Bool
is_installed r = elim r.state [ installed ↦ true | _ ↦ false ]

-- `references.get(reference)`
unfoldable pub find : ℕ → List Reference → Option ReferenceRecord
find key [] = none
find key ((k, r) ∷ refs) = if k == key then some r else find key refs

-- `del references[reference]`
unfoldable pub drop : ℕ → List Reference → List Reference
drop key [] = []
drop key ((k, r) ∷ refs) = let rest = drop key refs in if k == key then rest else (k, r) ∷ rest

-- `references[reference] = record`: in place, or at the end.
unfoldable pub assign : ℕ → ReferenceRecord → List Reference → List Reference
unfolding drop
assign key r [] = (key, r) ∷ []
assign key r ((k, q) ∷ refs) =
    let rest = assign key r refs in if k == key then (k, r) ∷ drop key refs else (k, q) ∷ rest

-- `reference in selected`
abbrev pub member : ℕ → List Reference → Bool
member key [] = false
member key ((k, r) ∷ selected) = k == key || member key selected

-- `for reference in selected: del references[reference]`
unfoldable pub drop_all : List Reference → List Reference → List Reference
drop_all selected refs = keep (λ e. not (member e.0 selected)) refs

abbrev pub take : ℕ → List Reference → List Reference
take zero es = []
take (suc n) [] = []
take (suc n) (e ∷ es) = e ∷ take n es
