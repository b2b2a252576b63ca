-- ===== src/Hooks/Generations.antt =====
-- The generation of a monitor, by which detectors and restart requests tell its lives apart.
use codex_must_work.Prelude.{
  ℕ, ◌+◌, ◌<◌, ◌≡◌, refl, String, true, false, not, ◌||◌, Option, none, some, List, [], ◌∷◌, inl,
  inr, if_cases, Bool-cases, arith, subst,
}
use codex_must_work.Monitors.{
  Monitor, RuntimeValues, Target, find_monitor, save_monitor, update_monitor, update_each,
  all_targets, terminated, advance_turn_activity_epoch,
}
use codex_must_work.Monitors.Views.{same_tree}
use codex_must_work.Hooks.{
  HookEvent, session_start, user_prompt_submit, subagent_start, subagent_stop, pre_tool_use,
  post_tool_use, permission_request, stop, HookPayload, apply_event, count_activity,
  apply_hook_event, process_hook, process, process_all, Hook, clear_waits, start_parent,
  start_child, stop_parent, submit_prompt, is_session_start, new_monitor, next_generation,
  without_waits, with_tool, without_tool, with_approval_wait, HookResult,
}
use codex_must_work.Hooks.Lives.{
  IsLater, Goes, Goes-refl, Follows, Follows-trans, save-Follows, update-Follows,
  update_each-Follows, same_fields, new_child_later, start_parent-Follows,
}

submit_prompt-Follows :
    (turn : Option String) (now : ℕ) (id : String) (v : RuntimeValues)
    → Follows v (submit_prompt turn now id v).1
unfolding submit_prompt clear_waits
submit_prompt-Follows none now id v = λ t. Goes-refl (find_monitor v t)
submit_prompt-Follows (some turn) now id v =
    Follows-trans v (start_parent turn now id v)
      (update_each (all_targets (start_parent turn now id v)) without_waits
        (start_parent turn now id v))
      (start_parent-Follows turn now id v)
      (update_each-Follows (all_targets (start_parent turn now id v)) without_waits
        (start_parent turn now id v) (λ m. inr (refl, λ h. h)))

start_child-Follows :
    (child : Option String) (now : ℕ) (id : String) (v : RuntimeValues)
    → Follows v (start_child child now id v).1
unfolding start_child
start_child-Follows none now id v = λ t. Goes-refl (find_monitor v t)
start_child-Follows (some c) now id v =
    same_fields v
      (save_monitor (some c) (new_monitor now id (next_generation (find_monitor v (some c)))) v)
      (start_child (some c) now id v).1 refl refl
      (save-Follows (some c) _ v (new_child_later now id (find_monitor v (some c))))

ends-IsLater : (m : Monitor) → IsLater m (terminated m)
ends-IsLater m = inr (refl, λ h. refl)

stop_parent-Follows : (v : RuntimeValues) → Follows v (stop_parent v).1
unfolding stop_parent
stop_parent-Follows v = elim (Bool-cases v.managed_mode) [
  | inl managed ↦ simp (managed) (
      same_fields v (update_each (all_targets v) terminated v)
        (record (update_each (all_targets v) terminated v) {
          handoff_requested = not (update_each (all_targets v) terminated v).shutdown_requested;
          parent_complete = false;
        })
        refl refl (update_each-Follows (all_targets v) terminated v ends-IsLater))
  | inr free ↦ elim (Bool-cases v.observe_only) [
    | inl observes ↦
        simp (free, observes)
          (same_fields v (update_monitor none terminated v)
            (record (update_monitor none terminated v) { parent_complete = true }) refl refl
            (update-Follows none terminated v ends-IsLater))
    | inr active ↦ simp (free, active) (λ t. Goes-refl (find_monitor v t))
  ]
]

apply_event-Follows :
    (e : HookEvent) (p : HookPayload) (now : ℕ) (id : String) (v : RuntimeValues)
    → Follows v (apply_event e p now id v).1
unfolding apply_event
apply_event-Follows session_start p now id v = λ t. Goes-refl (find_monitor v t)
apply_event-Follows user_prompt_submit p now id v = submit_prompt-Follows p.turn_id now id v
apply_event-Follows subagent_start p now id v = start_child-Follows p.agent_id now id v
apply_event-Follows subagent_stop p now id v = update-Follows p.agent_id terminated v ends-IsLater
apply_event-Follows pre_tool_use p now id v =
    update-Follows p.agent_id with_tool v (λ m. inr (refl, λ h. h))
apply_event-Follows post_tool_use p now id v =
    update-Follows p.agent_id (without_tool now) v (λ m. inr (refl, λ h. h))
apply_event-Follows permission_request p now id v =
    update-Follows p.agent_id with_approval_wait v (λ m. inr (refl, λ h. h))
apply_event-Follows stop p now id v = stop_parent-Follows v

count_activity-Follows : (u v w : RuntimeValues) → Follows u w → Follows u (count_activity v w)
unfolding count_activity advance_turn_activity_epoch
count_activity-Follows u v w f =
    if_cases (λ q. Follows u q) (same_tree v w) w _ (λ _. f)
      (λ _.
        same_fields u w (record w { turn_activity_epoch = w.turn_activity_epoch + 1 }) refl refl f)

process-Follows : (v : RuntimeValues) (h : Hook) → Follows v (process v h)
unfolding process process_hook apply_hook_event
process-Follows v h =
    if_cases (λ (r : Option HookResult × RuntimeValues). Follows v r.1)
      (is_session_start h.payload.event || not v.enabled || not h.same_transcript) (none, v) _
      (λ _. λ t. Goes-refl (find_monitor v t))
      (λ _.
        same_fields v
          (count_activity v (apply_event h.payload.event h.payload h.now h.silence_id v).1)
          (record (count_activity v
            (apply_event h.payload.event h.payload h.now h.silence_id v).1) {
              revision = v.revision + 1;
            })
          refl refl
          (count_activity-Follows v v _
            (apply_event-Follows h.payload.event h.payload h.now h.silence_id v)))

process_all-Follows : (v : RuntimeValues) (hooks : List Hook) → Follows v (process_all v hooks)
unfolding process_all
process_all-Follows v [] = λ t. Goes-refl (find_monitor v t)
process_all-Follows v (h ∷ hooks) =
    Follows-trans v (process v h) (process_all (process v h) hooks) (process-Follows v h)
      (process_all-Follows (process v h) hooks)

revived :
    (m : Monitor) (o : Option Monitor) (n : Monitor)
    → Goes (some m) o
    → o ≡ some n
    → m.terminal ≡ true
    → n.terminal ≡ false
    → m.generation < n.generation
revived m none n g e ended alive = absurd g
revived m (some k) n (inl newer) e ended alive = ground arith
revived m (some k) n (inr (same, ends)) e ended alive = cc (ends ended)

-- A monitor, of the parent or of any child, that has ended is never running again in the same
-- generation: if it is running after a history of hooks, of any events and for any targets, its
-- generation is a later one.
pub no_second_life :
    (v : RuntimeValues) (hooks : List Hook) (t : Target) (m n : Monitor)
    → find_monitor v t ≡ some m
    → find_monitor (process_all v hooks) t ≡ some n
    → m.terminal ≡ true
    → n.terminal ≡ false
    → m.generation < n.generation
no_second_life v hooks t m n before after ended alive =
    revived m (find_monitor (process_all v hooks) t) n
      (subst (λ o. Goes o (find_monitor (process_all v hooks) t)) before
        (process_all-Follows v hooks t))
      after ended alive
