-- ===== src/Hooks/Endings.antt =====
-- The end of a turn: the handoff that it asks for, and the monitors that it ends.
use codex_must_work.Prelude.{
  ℕ, ◌≡◌, refl, ap, ◌∙◌, String, Bool, true, false, not, ◌||◌, Option, none, some, List, [], ◌∷◌,
  opt_eq, opt_eq_iff, if◌then◌else◌, if_cases, Bool-cases, Option-cases, inl, inr, arith, subst,
  sym, any, get, Dict,
}
use codex_must_work.Monitors.{
  Monitor, RuntimeValues, Target, find_monitor, save_monitor, update_monitor, update_each,
  all_targets, terminated, advance_turn_activity_epoch, keys,
}
use codex_must_work.Monitors.Views.{same_tree, find-save, update_keeps, update_each_keeps}
use codex_must_work.Hooks.{
  HookEvent, session_start, user_prompt_submit, subagent_start, subagent_stop, pre_tool_use,
  post_tool_use, permission_request, stop, HookPayload, apply_event, count_activity,
  apply_hook_event, process_hook, process, process_all, Hook, clear_waits, start_parent,
  start_child, stop_parent, submit_prompt, is_session_start, without_waits, with_tool, without_tool,
  with_approval_wait, HookResult, defer_session_shutdown, is_running, any_running,
}

abbrev requests : RuntimeValues → Bool × Bool
requests v = (v.shutdown_requested, v.handoff_requested)

requests-save :
    (t : Target) (m : Monitor) (v : RuntimeValues) → requests (save_monitor t m v) ≡ requests v
unfolding save_monitor
requests-save none m v = refl
requests-save (some id) m v = refl

abbrev IsEnding : RuntimeValues → Type 0
IsEnding v = requests v ≡ (true, false)

stop_parent-IsEnding : (v : RuntimeValues) → IsEnding v → IsEnding (stop_parent v).1
unfolding stop_parent
stop_parent-IsEnding v e = ground (
  arith,
  update_each_keeps requests requests-save (all_targets v) terminated v,
  update_keeps requests requests-save none terminated v,
)

submit_prompt-IsEnding :
    (turn : Option String) (now : ℕ) (id : String) (v : RuntimeValues)
    → IsEnding v
    → IsEnding (submit_prompt turn now id v).1
unfolding submit_prompt clear_waits start_parent
submit_prompt-IsEnding none now id v e = e
submit_prompt-IsEnding (some turn) now id v e =
    update_each_keeps requests requests-save (all_targets (start_parent turn now id v))
      without_waits (start_parent turn now id v)
    ∙ ground arith

start_child-IsEnding :
    (child : Option String) (now : ℕ) (id : String) (v : RuntimeValues)
    → IsEnding v
    → IsEnding (start_child child now id v).1
unfolding start_child
start_child-IsEnding none now id v e = e
start_child-IsEnding (some c) now id v e = e

apply_event-IsEnding :
    (h : HookEvent) (p : HookPayload) (now : ℕ) (id : String) (v : RuntimeValues)
    → IsEnding v
    → IsEnding (apply_event h p now id v).1
unfolding apply_event
apply_event-IsEnding session_start p now id v e = e
apply_event-IsEnding user_prompt_submit p now id v e = submit_prompt-IsEnding p.turn_id now id v e
apply_event-IsEnding subagent_start p now id v e = start_child-IsEnding p.agent_id now id v e
apply_event-IsEnding subagent_stop p now id v e =
    update_keeps requests requests-save p.agent_id terminated v ∙ e
apply_event-IsEnding pre_tool_use p now id v e =
    update_keeps requests requests-save p.agent_id with_tool v ∙ e
apply_event-IsEnding post_tool_use p now id v e =
    update_keeps requests requests-save p.agent_id (without_tool now) v ∙ e
apply_event-IsEnding permission_request p now id v e =
    update_keeps requests requests-save p.agent_id with_approval_wait v ∙ e
apply_event-IsEnding stop p now id v e = stop_parent-IsEnding v e

count_activity-IsEnding : (v w : RuntimeValues) → IsEnding w → IsEnding (count_activity v w)
unfolding count_activity advance_turn_activity_epoch
count_activity-IsEnding v w e = if_cases IsEnding (same_tree v w) w _ (λ _. e) (λ _. e)

process-IsEnding : (v : RuntimeValues) (h : Hook) → IsEnding v → IsEnding (process v h)
unfolding process process_hook apply_hook_event
process-IsEnding v h e =
    if_cases (λ (r : Option HookResult × RuntimeValues). IsEnding r.1)
      (is_session_start h.payload.event || not v.enabled || not h.same_transcript) (none, v) _
      (λ _. e)
      (λ _.
        count_activity-IsEnding v _
          (apply_event-IsEnding h.payload.event h.payload h.now h.silence_id v e))

process_all-IsEnding :
    (v : RuntimeValues) (hooks : List Hook) → IsEnding v → IsEnding (process_all v hooks)
unfolding process_all
process_all-IsEnding v [] e = e
process_all-IsEnding v (h ∷ hooks) e =
    process_all-IsEnding (process v h) hooks (process-IsEnding v h e)

-- Once the shutdown of a session was deferred to the end of its managed turn, no hook, whatever
-- turns, agents and stops follow, asks for a handoff to another turn, and the request stands.
pub deferred_ends :
    (interrupt : Bool) (v : RuntimeValues) (hooks : List Hook)
    → (defer_session_shutdown interrupt v).0 ≡ true
    → ((process_all (defer_session_shutdown interrupt v).1 hooks).handoff_requested ≡ false)
      × ((process_all (defer_session_shutdown interrupt v).1 hooks).shutdown_requested ≡ true)
unfolding defer_session_shutdown
deferred_ends interrupt v hooks taken =
    (ap (λ (p : Bool × Bool). p.1) ends, ap (λ (p : Bool × Bool). p.0) ends)
  where
    ends : IsEnding (process_all (defer_session_shutdown interrupt v).1 hooks)
    ends = process_all-IsEnding (defer_session_shutdown interrupt v).1 hooks (ground arith)

running-terminate :
    (u t : Target) (v : RuntimeValues)
    → is_running (find_monitor (update_monitor u terminated v) t)
      ≡ (if opt_eq u t then false else is_running (find_monitor v t))
unfolding update_monitor
running-terminate u t v = elim (Option-cases (find_monitor v u)) [
  | inl missing ↦
      simp (update_monitor, missing)
        (elim (Bool-cases (opt_eq u t)) [
          | inl same ↦ simp (same) (
              ap is_running
                (subst (λ x. find_monitor v x ≡ none) ((opt_eq_iff u t).0 same) missing))
          | inr other ↦ simp (other) refl
        ])
  | inr (m, found) ↦
      simp (update_monitor, found, find-save u t (terminated m) v)
        (if_cases
          (λ o. is_running o ≡ (if opt_eq u t then false else is_running (find_monitor v t)))
          (opt_eq u t) (some (terminated m)) (find_monitor v t) (λ same. simp (same) refl)
          (λ other. simp (other) refl))
]

-- The monitor of a target ends when its turn among the targets comes, and stays ended.
terminate_each :
    (ts : List Target) (v : RuntimeValues) (t : Target)
    → (any (λ u. opt_eq u t) ts || not (is_running (find_monitor v t))) ≡ true
    → is_running (find_monitor (update_each ts terminated v) t) ≡ false
unfolding update_each
terminate_each [] v t h = ground arith
terminate_each (u ∷ ts) v t h = terminate_each ts (update_monitor u terminated v) t (
    subst (λ b. (any (λ u. opt_eq u t) ts || not b) ≡ true) (sym (running-terminate u t v))
      (ground arith))

missing_or_listed :
    (d : Dict Monitor) (id : String)
    → (any (λ u. opt_eq u (some id)) (keys d) || not (is_running (get d id))) ≡ true
unfolding get
missing_or_listed [] id = refl
missing_or_listed ((key, m) ∷ d) id = ground (arith, missing_or_listed d id)

none_runs :
    (v : RuntimeValues) (t : Target)
    → is_running (find_monitor (update_each (all_targets v) terminated v) t) ≡ false
unfolding find_monitor get
none_runs v none = terminate_each (all_targets v) v none refl
none_runs v (some id) = terminate_each (all_targets v) v (some id) (missing_or_listed v.children id)

all_stopped :
    (v : RuntimeValues) (ts : List Target)
    → ((t : Target) → is_running (find_monitor v t) ≡ false)
    → any (λ t. is_running (find_monitor v t)) ts ≡ false
all_stopped v [] h = refl
all_stopped v (t ∷ ts) h = ground (arith, h t, all_stopped v ts h)

-- What the stop of a managed turn adds to the monitors that it ended.
abbrev handed_over : RuntimeValues → RuntimeValues
handed_over w = record w { handoff_requested = not w.shutdown_requested; parent_complete = false }

find-handed_over :
    (w : RuntimeValues) (t : Target) → find_monitor (handed_over w) t ≡ find_monitor w t
unfolding find_monitor
find-handed_over w none = refl
find-handed_over w (some id) = refl

none_runs_after :
    (v : RuntimeValues)
    → any_running (handed_over (update_each (all_targets v) terminated v)) ≡ false
unfolding any_running
none_runs_after v =
    all_stopped (handed_over (update_each (all_targets v) terminated v))
      (all_targets (handed_over (update_each (all_targets v) terminated v)))
      (λ t.
        ap is_running (find-handed_over (update_each (all_targets v) terminated v) t)
        ∙ none_runs v t)

launches_next :
    (w : RuntimeValues) (child : String) (now : ℕ) (id : String)
    → any_running w ≡ false
    → (start_child (some child) now id w).0 ≡ true
unfolding start_child
launches_next w child now id h = ap not h

stop_parent-managed :
    (v : RuntimeValues)
    → v.managed_mode ≡ true
    → stop_parent v ≡ (false, handed_over (update_each (all_targets v) terminated v))
unfolding stop_parent
stop_parent-managed v managed = simp (managed) refl

-- The stop of a managed turn ends every monitor of the file, asks for a handoff exactly if no
-- shutdown was requested, and launches no watcher; the next child that starts, whichever it is,
-- then launches one.
pub managed_stop :
    (v : RuntimeValues) (child : String) (now : ℕ) (id : String)
    → v.managed_mode ≡ true
    → ((stop_parent v).0 ≡ false)
      × (any_running (stop_parent v).1 ≡ false)
      × ((stop_parent v).1.handoff_requested ≡ not v.shutdown_requested)
      × ((start_child (some child) now id (stop_parent v).1).0 ≡ true)
managed_stop v child now id managed = rw (stop_parent-managed v managed) (
  refl,
  none_runs_after v,
  ap (λ (p : Bool × Bool). not p.0)
      (update_each_keeps requests requests-save (all_targets v) terminated v),
  launches_next (handed_over (update_each (all_targets v) terminated v)) child now id
      (none_runs_after v),
)
