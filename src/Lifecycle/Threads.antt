-- ===== src/Lifecycle/Threads.antt =====
-- Threads that are admitted and threads that close the daemon, in any order: `DaemonLifecycle` of
-- scripts/daemon_lifecycle.py with what its callers do between its steps.
use codex_must_work.Prelude.{
  subst, ◌∙◌, ℕ, ◌+◌, ◌≡◌, suc, refl, String, Bool, true, false, none, some, List, [], ◌∷◌, ◌==◌,
  length, any, if◌then◌else◌, arith,
}
use codex_must_work.Lifecycle.{
  wait_closed, DaemonLifecycle, open_lifecycle, begin_admission, end_admission, begin_close, owns,
  is_drained, finish_close,
}

-- How far the thread that closes has come.
pub data Phase : Type 0 where
  accepting closed : Phase
  draining closing : ℕ → Phase

-- The lifecycle, the threads inside an admitted operation, and how often the resources were closed.
pub record Machine : Type 0 where
  pub lifecycle : DaemonLifecycle
  pub operations : List ℕ
  pub phase : Phase
  pub closings : ℕ

abbrev pub machine : Machine
machine = record { lifecycle = open_lifecycle; operations = []; phase = accepting; closings = 0 }

-- One operation of the thread is over.
abbrev pub without : ℕ → List ℕ → List ℕ
without thread [] = []
without thread (t ∷ ts) = let rest = without thread ts in if t == thread then ts else t ∷ rest

abbrev pub in_operation : ℕ → Machine → Bool
in_operation thread m = any (λ t. t == thread) m.operations

pub data Step (m : Machine) : Machine → Type 0 where
  admits :
      (thread : ℕ)
      → (begin_admission m.lifecycle).0 ≡ true
      → Step m (record m {
        lifecycle = (begin_admission m.lifecycle).1;
        operations = thread ∷ m.operations;
      })
  leaves :
      (thread : ℕ)
      → in_operation thread m ≡ true
      → Step m (record m {
        lifecycle = (end_admission m.lifecycle).1;
        operations = without thread m.operations;
      })
  begins :
      (thread : ℕ)
      → (begin_close thread m.lifecycle).0 ≡ owns
      → Step m
          (record m { lifecycle = (begin_close thread m.lifecycle).1; phase = draining thread })
  drains :
      (thread : ℕ)
      → m.phase ≡ draining thread
      → is_drained m.lifecycle ≡ true
      → Step m (record m { phase = closing thread; closings = m.closings + 1 })
  finishes :
      (thread : ℕ) (report : List String)
      → m.phase ≡ closing thread
      → Step m (record m { lifecycle = finish_close report m.lifecycle; phase = closed })

pub data Reachable : Machine → Type 0 where
  starts : Reachable machine
  steps : {m n : Machine} → Reachable m → Step m n → Reachable n

-- What each phase says of the rest of the machine.
abbrev pub IsAt : Phase → Machine → Type 0
IsAt accepting m =
    (m.lifecycle.close_started ≡ false) × (m.lifecycle.close_finished ≡ false) × (m.closings ≡ 0)
IsAt (draining thread) m =
    (m.lifecycle.close_started ≡ true)
    × (m.lifecycle.close_finished ≡ false)
    × (m.lifecycle.close_owner ≡ some thread)
    × (m.closings ≡ 0)
IsAt (closing thread) m =
    (m.lifecycle.close_started ≡ true)
    × (m.lifecycle.close_finished ≡ false)
    × (m.lifecycle.close_owner ≡ some thread)
    × (m.closings ≡ 1)
    × (m.operations ≡ [])
IsAt closed m =
    (m.lifecycle.close_started ≡ true)
    × (m.lifecycle.close_finished ≡ true)
    × (m.lifecycle.close_owner ≡ none)
    × (m.closings ≡ 1)
    × (m.operations ≡ [])

-- The admissions are counted, and the machine is where its phase says.
pub record IsMachine (m : Machine) : Type 0 where
  pub counted : m.lifecycle.active_admissions ≡ length m.operations
  pub placed : IsAt m.phase m

length-without :
    (thread : ℕ) (ts : List ℕ)
    → any (λ t. t == thread) ts ≡ true
    → suc (length (without thread ts)) ≡ length ts
length-without thread [] h = ground arith
length-without thread (t ∷ ts) h = ground (arith, length-without thread ts)

length-none : (ts : List ℕ) → length ts ≡ 0 → ts ≡ []
length-none [] e = refl
length-none (t ∷ ts) e = ground arith

empty-in_operation :
    (thread : ℕ) (m : Machine) → m.operations ≡ [] → in_operation thread m ≡ true → ⊥
empty-in_operation thread m e h = ground arith

abbrev admitted : ℕ → Machine → Machine
unfolding begin_admission
admitted thread m = record m {
  lifecycle = (begin_admission m.lifecycle).1;
  operations = thread ∷ m.operations;
}

admits-IsAt :
    (p : Phase) (thread : ℕ) (m : Machine)
    → (begin_admission m.lifecycle).0 ≡ true
    → IsAt p m
    → IsAt p (admitted thread m)
unfolding admitted begin_admission
admits-IsAt accepting thread m h i = ground arith
admits-IsAt (draining t) thread m h i = ground arith
admits-IsAt (closing t) thread m h i = ground arith
admits-IsAt closed thread m h i = ground arith

abbrev left : ℕ → Machine → Machine
unfolding end_admission
left thread m = record m {
  lifecycle = (end_admission m.lifecycle).1;
  operations = without thread m.operations;
}

leaves-IsAt :
    (p : Phase) (thread : ℕ) (m : Machine)
    → in_operation thread m ≡ true
    → IsAt p m
    → IsAt p (left thread m)
unfolding left end_admission
leaves-IsAt accepting thread m h i = i
leaves-IsAt (draining t) thread m h i = i
leaves-IsAt (closing t) thread m h (s, f, o, c, e) =
    (s, f, o, c, absurd (empty-in_operation thread m e h))
leaves-IsAt closed thread m h (s, f, o, c, e) =
    (s, f, o, c, absurd (empty-in_operation thread m e h))

begins-IsAt :
    (p : Phase) (thread : ℕ) (m : Machine)
    → (begin_close thread m.lifecycle).0 ≡ owns
    → IsAt p m
    → IsAt
        (draining thread)
        (record m { lifecycle = (begin_close thread m.lifecycle).1; phase = draining thread })
unfolding begin_close wait_closed
begins-IsAt accepting thread m h (s, f, c) = simp s (refl, f, refl, c)
begins-IsAt (draining t) thread m h i = ground arith
begins-IsAt (closing t) thread m h i = ground arith
begins-IsAt closed thread m h i = ground arith

at_phase : (p : Phase) (m : Machine) → m.phase ≡ p → IsAt m.phase m → IsAt p m
at_phase p m e i = subst (λ q. IsAt q m) e i

admits-counted :
    (thread : ℕ) (m : Machine)
    → (begin_admission m.lifecycle).0 ≡ true
    → m.lifecycle.active_admissions ≡ length m.operations
    → (begin_admission m.lifecycle).1.active_admissions ≡ suc (length m.operations)
unfolding begin_admission
admits-counted thread m h c = ground arith

begins-counted :
    (thread : ℕ) (l : DaemonLifecycle)
    → (begin_close thread l).1.active_admissions ≡ l.active_admissions
unfolding begin_close
begins-counted thread l = ground arith

step-IsMachine : (m n : Machine) → Step m n → IsMachine m → IsMachine n
unfolding admitted left end_admission is_drained finish_close
step-IsMachine m n (admits thread h) i = record {
  counted = admits-counted thread m h i.counted;
  placed = admits-IsAt m.phase thread m h i.placed;
}
step-IsMachine m n (leaves thread h) i = record {
  counted = omega (arith, i.counted, length-without thread m.operations h);
  placed = leaves-IsAt m.phase thread m h i.placed;
}
step-IsMachine m n (begins thread h) i = record {
  counted = begins-counted thread m.lifecycle ∙ i.counted;
  placed = begins-IsAt m.phase thread m h i.placed;
}
step-IsMachine m n (drains thread e h) i =
    let (s, f, o, c) = at_phase (draining thread) m e i.placed in
    record {
      counted = i.counted;
      placed = (s, f, o, omega arith, length-none m.operations (ground (arith, i.counted)));
    }
step-IsMachine m n (finishes thread report e) i =
    let (s, f, o, c, none_left) = at_phase (closing thread) m e i.placed in
    record { counted = i.counted; placed = (s, refl, refl, c, none_left) }

pub Reachable-IsMachine : (m : Machine) → Reachable m → IsMachine m
Reachable-IsMachine m starts = record { counted = refl; placed = (refl, refl, refl) }
Reachable-IsMachine m (steps {m = k} r s) = step-IsMachine k m s (Reachable-IsMachine k r)
