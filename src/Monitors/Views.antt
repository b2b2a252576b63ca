-- ===== src/Monitors/Views.antt =====
-- What a write to one monitor does to the monitors, looked up by their targets, and when two trees
-- of monitors are equal as Python compares them.
use codex_must_work.Prelude.{
  ℕ, ◌≡◌, refl, ap, ◌∙◌, sym, String, Bool, true, false, ◌&&◌, Option, none, some, [], ◌∷◌, ◌==◌,
  ==_iff, str_eq, eq_iff, opt_eq, opt_eq_iff, if◌then◌else◌, Dict, get, get-put, arith,
  Option-cases, Bool-cases, inl, inr,
}
use codex_must_work.Monitors.{
  List, update_monitor, update_each, Monitor, RuntimeValues, Target, find_monitor, save_monitor,
}

pub find-save :
    (t u : Target) (m : Monitor) (v : RuntimeValues)
    → find_monitor (save_monitor t m v) u ≡ (if opt_eq t u then some m else find_monitor v u)
unfolding find_monitor save_monitor
find-save none none m v = refl
find-save none (some id) m v = refl
find-save (some id) none m v = refl
find-save (some id) (some other) m v = get-put v.children id other m

abbrev pub opt_nat_eq : Option ℕ → Option ℕ → Bool
opt_nat_eq none none = true
opt_nat_eq (some a) (some b) = a == b
opt_nat_eq none (some b) = false
opt_nat_eq (some a) none = false

opt_nat_eq-eq : (a b : Option ℕ) → opt_nat_eq a b ≡ true → a ≡ b
opt_nat_eq-eq none none h = refl
opt_nat_eq-eq none (some b) h = cc
opt_nat_eq-eq (some a) none h = cc
opt_nat_eq-eq (some a) (some b) h = ap some ((==_iff a b).0 h)

abbrev pub bool_eq : Bool → Bool → Bool
bool_eq true b = b
bool_eq false true = false
bool_eq false false = true

-- Two monitors are equal: `==` on their dicts.
unfoldable pub monitor_eq : Monitor → Monitor → Bool
monitor_eq a b =
    bool_eq a.terminal b.terminal
    && (a.generation == b.generation)
    && opt_nat_eq a.last_tool_result_at b.last_tool_result_at
    && opt_nat_eq a.silence_started_at b.silence_started_at
    && (a.open_tool_count == b.open_tool_count)
    && bool_eq a.waiting_for_approval b.waiting_for_approval
    && bool_eq a.waiting_for_user b.waiting_for_user
    && str_eq a.silence_id b.silence_id
    && (a.progress_epoch == b.progress_epoch)

monitor_eq-eq : (a b : Monitor) → monitor_eq a b ≡ true → a ≡ b
unfolding monitor_eq
monitor_eq-eq a b h = ground (
  arith,
  opt_nat_eq-eq a.last_tool_result_at b.last_tool_result_at,
  opt_nat_eq-eq a.silence_started_at b.silence_started_at,
  eq_iff a.silence_id b.silence_id,
)

-- Two optional monitors are equal.
abbrev pub opt_monitor_eq : Option Monitor → Option Monitor → Bool
opt_monitor_eq none none = true
opt_monitor_eq none (some b) = false
opt_monitor_eq (some a) none = false
opt_monitor_eq (some a) (some b) = monitor_eq a b

opt_monitor_eq-eq : (a b : Option Monitor) → opt_monitor_eq a b ≡ true → a ≡ b
opt_monitor_eq-eq none none h = refl
opt_monitor_eq-eq none (some b) h = cc
opt_monitor_eq-eq (some a) none h = cc
opt_monitor_eq-eq (some a) (some b) h = ap some (monitor_eq-eq a b h)

-- Each item of the first dict is one of the second.
unfoldable pub includes : Dict Monitor → Dict Monitor → Bool
unfolding get monitor_eq
includes [] b = true
includes ((id, m) ∷ a) b = opt_monitor_eq (get b id) (some m) && includes a b

-- Two dicts are equal: they have the same items.
unfoldable pub children_eq : Dict Monitor → Dict Monitor → Bool
unfolding includes
children_eq a b = includes a b && includes b a

includes-get :
    (a b : Dict Monitor) (id : String) (m : Monitor)
    → includes a b ≡ true
    → get a id ≡ some m
    → get b id ≡ some m
unfolding includes get
includes-get [] b id m h e = cc
includes-get ((key, n) ∷ a) b id m h e = elim (Bool-cases (str_eq key id)) [
  | inl same ↦
      let equal : key ≡ id = (eq_iff key id).0 same in
      let first : opt_monitor_eq (get b key) (some n) ≡ true = ground arith in
      rw equal at (opt_monitor_eq-eq (get b key) (some n) first) ∙ ground arith
  | inr other ↦ includes-get a b id m (ground arith) (ground arith)
]

pub children_eq-get :
    (a b : Dict Monitor) (id : String) → children_eq a b ≡ true → get a id ≡ get b id
unfolding children_eq
children_eq-get a b id h = elim (Option-cases (get a id)) [
  | inr (m, e) ↦ e ∙ sym (includes-get a b id m (ground arith) e)
  | inl absent ↦ elim (Option-cases (get b id)) [
    | inl also ↦ absent ∙ sym also
    | inr (m, e) ↦ includes-get b a id m (ground arith) e ∙ sym e
  ]
]

-- The parent, the children, the parent's turn and its end, as `apply_hook_event` compares them.
unfoldable pub same_tree : RuntimeValues → RuntimeValues → Bool
unfolding children_eq monitor_eq
same_tree v w =
    opt_monitor_eq v.parent w.parent
    && children_eq v.children w.children
    && opt_eq v.parent_turn_id w.parent_turn_id
    && bool_eq v.parent_complete w.parent_complete

-- No monitor, turn or end of a turn differs.
pub record IsSameTree (v w : RuntimeValues) : Type 0 where
  pub monitors : (t : Target) → find_monitor v t ≡ find_monitor w t
  pub turn : v.parent_turn_id ≡ w.parent_turn_id
  pub complete : v.parent_complete ≡ w.parent_complete

same_monitors :
    (v w : RuntimeValues) (t : Target) → same_tree v w ≡ true → find_monitor v t ≡ find_monitor w t
unfolding same_tree find_monitor
same_monitors v w none h = opt_monitor_eq-eq v.parent w.parent (ground arith)
same_monitors v w (some id) h = children_eq-get v.children w.children id (ground arith)

pub same_tree-IsSameTree : (v w : RuntimeValues) → same_tree v w ≡ true → IsSameTree v w
unfolding same_tree
same_tree-IsSameTree v w h = record {
  monitors = λ t. same_monitors v w t h;
  turn = (opt_eq_iff v.parent_turn_id w.parent_turn_id).0 (ground arith);
  complete = ground arith;
}

-- A field that a write to one monitor leaves alone.
module _ {A : Type 0} (field : RuntimeValues → A)
    (kept : (t : Target) (m : Monitor) (v : RuntimeValues)
      → field (save_monitor t m v) ≡ field v) where
  pub update_keeps :
      (t : Target) (f : Monitor → Monitor) (v : RuntimeValues)
      → field (update_monitor t f v) ≡ field v
  unfolding update_monitor
  update_keeps t f v = elim (Option-cases (find_monitor v t)) [
    | inl missing ↦ simp (update_monitor, missing) refl
    | inr (m, found) ↦ simp (update_monitor, found) (kept t (f m) v)
  ]

  pub update_each_keeps :
      (ts : List Target) (f : Monitor → Monitor) (v : RuntimeValues)
      → field (update_each ts f v) ≡ field v
  unfolding update_each
  update_each_keeps [] f v = refl
  update_each_keeps (t ∷ ts) f v =
      update_each_keeps ts f (update_monitor t f v) ∙ update_keeps t f v
