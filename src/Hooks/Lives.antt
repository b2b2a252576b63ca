-- ===== src/Hooks/Lives.antt =====
-- When a monitor goes on, and the writes that make it.
use codex_must_work.Prelude.{
  ℕ, ◌<◌, ◌≡◌, refl, ◌∙◌, String, true, not, ◌||◌, Option, none, some, List, [], ◌∷◌, ◌⊎◌, inl, inr,
  opt_eq, opt_eq_iff, is_none, if◌then◌else◌, if_cases, Bool-cases, arith, subst, sym, ltb, get,
  Option-cases,
}
use codex_must_work.Monitors.{
  Monitor, RuntimeValues, Target, find_monitor, save_monitor, update_monitor, update_each,
}
use codex_must_work.Monitors.Views.{find-save}
use codex_must_work.Hooks.{start_parent, new_monitor, next_generation, next_parent_generation}

-- A later state of a monitor: a newer generation, or the same one that has not come back to life.
abbrev pub IsLater : Monitor → Monitor → Type 0
IsLater m n =
    (m.generation < n.generation)
    ⊎ ((m.generation ≡ n.generation) × (m.terminal ≡ true → n.terminal ≡ true))

-- A monitor that is there stays there, in a later state.
abbrev pub Goes : Option Monitor → Option Monitor → Type 0
Goes none o = Unit
Goes (some m) none = ⊥
Goes (some m) (some n) = IsLater m n

IsLater-trans : (a b c : Monitor) → IsLater a b → IsLater b c → IsLater a c
IsLater-trans a b c (inl p) (inl q) = inl (omega arith)
IsLater-trans a b c (inl p) (inr (e, f)) = inl (omega arith)
IsLater-trans a b c (inr (e, f)) (inl q) = inl (omega arith)
IsLater-trans a b c (inr (e, f)) (inr (e', f')) = inr (e ∙ e', λ h. f' (f h))

Goes-trans : (a b c : Option Monitor) → Goes a b → Goes b c → Goes a c
Goes-trans none b c p q = tt
Goes-trans (some m) none c p q = absurd p
Goes-trans (some m) (some n) none p q = q
Goes-trans (some m) (some n) (some k) p q = IsLater-trans m n k p q

pub Goes-refl : (a : Option Monitor) → Goes a a
Goes-refl none = tt
Goes-refl (some m) = inr (refl, λ h. h)

-- Every monitor of the file goes on.
abbrev pub Follows : RuntimeValues → RuntimeValues → Type 0
Follows v w = (t : Target) → Goes (find_monitor v t) (find_monitor w t)

pub Follows-trans : (u v w : RuntimeValues) → Follows u v → Follows v w → Follows u w
Follows-trans u v w p q t =
    Goes-trans (find_monitor u t) (find_monitor v t) (find_monitor w t) (p t) (q t)

pub save-Follows :
    (t : Target) (m : Monitor) (v : RuntimeValues)
    → Goes (find_monitor v t) (some m)
    → Follows v (save_monitor t m v)
save-Follows t m v g u =
    subst (λ o. Goes (find_monitor v u) o) (sym (find-save t u m v))
      (if_cases (λ o. Goes (find_monitor v u) o) (opt_eq t u) (some m) (find_monitor v u)
        (λ same. subst (λ x. Goes (find_monitor v x) (some m)) ((opt_eq_iff t u).0 same) g)
        (λ other. Goes-refl (find_monitor v u)))

pub update-Follows :
    (t : Target) (f : Monitor → Monitor) (v : RuntimeValues)
    → ((m : Monitor) → IsLater m (f m))
    → Follows v (update_monitor t f v)
unfolding update_monitor
update-Follows t f v later = elim (Option-cases (find_monitor v t)) [
  | inl missing ↦ λ u. simp (update_monitor, missing) (Goes-refl (find_monitor v u))
  | inr (m, found) ↦
      λ u. simp (update_monitor, found) (save-Follows t (f m) v (rw found (later m)) u)
]

pub update_each-Follows :
    (ts : List Target) (f : Monitor → Monitor) (v : RuntimeValues)
    → ((m : Monitor) → IsLater m (f m))
    → Follows v (update_each ts f v)
unfolding update_each
update_each-Follows [] f v later = λ u. Goes-refl (find_monitor v u)
update_each-Follows (t ∷ ts) f v later =
    Follows-trans v (update_monitor t f v) (update_each ts f (update_monitor t f v))
      (update-Follows t f v later) (update_each-Follows ts f (update_monitor t f v) later)

-- Only the parent and the children are looked at.
pub same_fields :
    (v w q : RuntimeValues)
    → q.parent ≡ w.parent
    → q.children ≡ w.children
    → Follows v w
    → Follows v q
unfolding find_monitor
same_fields v w q p c f none = subst (λ o. Goes v.parent o) (sym p) (f none)
same_fields v w q p c f (some id) =
    subst (λ d. Goes (get v.children id) (get d id)) (sym c) (f (some id))

new_parent_later :
    (now : ℕ) (id : String) (o : Option Monitor)
    → Goes o (some (new_monitor now id (next_parent_generation o)))
unfolding new_monitor next_parent_generation
new_parent_later now id none = tt
new_parent_later now id (some m) = inl (ground arith)

pub new_child_later :
    (now : ℕ) (id : String) (o : Option Monitor)
    → Goes o (some (new_monitor now id (next_generation o)))
unfolding new_monitor next_generation
new_child_later now id none = tt
new_child_later now id (some m) = elim (Bool-cases (ltb m.generation (next_generation (some m)))) [
  | inl newer ↦ inl (ground arith)
  | inr same ↦ inr (ground arith, λ ended. ground arith)
]

pub start_parent-Follows :
    (turn : String) (now : ℕ) (id : String) (v : RuntimeValues)
    → Follows v (start_parent turn now id v)
unfolding start_parent find_monitor
start_parent-Follows turn now id v =
    same_fields v
      (if not (opt_eq v.parent_turn_id (some turn)) || is_none v.parent
        then save_monitor none (new_monitor now id (next_parent_generation v.parent)) v
        else v)
      (start_parent turn now id v) refl refl
      (if_cases (λ w. Follows v w) (not (opt_eq v.parent_turn_id (some turn)) || is_none v.parent)
        (save_monitor none (new_monitor now id (next_parent_generation v.parent)) v) v
        (λ _. save-Follows none _ v (new_parent_later now id v.parent))
        (λ _. λ t. Goes-refl (find_monitor v t)))
