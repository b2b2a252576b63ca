-- ===== src/Hooks/Freshness.antt =====
-- The whole-turn activity epoch, which moves with what the hooks change.
use codex_must_work.Prelude.{
  ◌<◌, ℕ, ◌+◌, ◌≡◌, refl, ◌∙◌, String, not, ◌||◌, Option, none, some, List, [], ◌∷◌, ◌⊎◌, inl, inr,
  Bool-cases, if_cases, arith,
}
use codex_must_work.Monitors.{
  Monitor, RuntimeValues, Target, find_monitor, save_monitor, all_targets, terminated,
  advance_turn_activity_epoch,
}
use codex_must_work.Monitors.Views.{
  update_keeps, update_each_keeps, same_tree, IsSameTree, same_tree-IsSameTree,
}
use codex_must_work.Hooks.{
  HookResult, HookEvent, session_start, user_prompt_submit, subagent_start, subagent_stop,
  pre_tool_use, post_tool_use, permission_request, stop, HookPayload, apply_event, count_activity,
  apply_hook_event, process_hook, process, process_all, Hook, clear_waits, start_parent,
  start_child, stop_parent, submit_prompt, is_session_start, without_waits,
}

abbrev epoch : RuntimeValues → ℕ
epoch v = v.turn_activity_epoch

epoch-save :
    (t : Target) (m : Monitor) (v : RuntimeValues)
    → (save_monitor t m v).turn_activity_epoch ≡ v.turn_activity_epoch
unfolding save_monitor
epoch-save none m v = refl
epoch-save (some id) m v = refl

epoch-start_parent :
    (turn : String) (now : ℕ) (id : String) (v : RuntimeValues)
    → (start_parent turn now id v).turn_activity_epoch ≡ v.turn_activity_epoch
unfolding start_parent
epoch-start_parent turn now id v = ground arith

epoch-submit_prompt :
    (turn : Option String) (now : ℕ) (id : String) (v : RuntimeValues)
    → (submit_prompt turn now id v).1.turn_activity_epoch ≡ v.turn_activity_epoch
unfolding submit_prompt clear_waits
epoch-submit_prompt none now id v = refl
epoch-submit_prompt (some turn) now id v =
    update_each_keeps epoch epoch-save (all_targets (start_parent turn now id v)) without_waits
      (start_parent turn now id v)
    ∙ epoch-start_parent turn now id v

epoch-start_child :
    (child : Option String) (now : ℕ) (id : String) (v : RuntimeValues)
    → (start_child child now id v).1.turn_activity_epoch ≡ v.turn_activity_epoch
unfolding start_child
epoch-start_child none now id v = refl
epoch-start_child (some c) now id v = refl

epoch-stop_parent :
    (v : RuntimeValues) → (stop_parent v).1.turn_activity_epoch ≡ v.turn_activity_epoch
unfolding stop_parent
epoch-stop_parent v = ground (
  arith,
  update_each_keeps epoch epoch-save (all_targets v) terminated v,
  update_keeps epoch epoch-save none terminated v,
)

-- No event counts activity by itself.
epoch-apply_event :
    (e : HookEvent) (p : HookPayload) (now : ℕ) (id : String) (v : RuntimeValues)
    → (apply_event e p now id v).1.turn_activity_epoch ≡ v.turn_activity_epoch
unfolding apply_event
epoch-apply_event session_start p now id v = refl
epoch-apply_event user_prompt_submit p now id v = epoch-submit_prompt p.turn_id now id v
epoch-apply_event subagent_start p now id v = epoch-start_child p.agent_id now id v
epoch-apply_event subagent_stop p now id v = update_keeps epoch epoch-save p.agent_id _ v
epoch-apply_event pre_tool_use p now id v = update_keeps epoch epoch-save p.agent_id _ v
epoch-apply_event post_tool_use p now id v = update_keeps epoch epoch-save p.agent_id _ v
epoch-apply_event permission_request p now id v = update_keeps epoch epoch-save p.agent_id _ v
epoch-apply_event stop p now id v = epoch-stop_parent v

-- The epoch moved on, or the trees are the same.
abbrev IsCounted : RuntimeValues → RuntimeValues → Type 0
IsCounted v w =
    ((w.turn_activity_epoch ≡ v.turn_activity_epoch) × IsSameTree v w)
    ⊎ (v.turn_activity_epoch < w.turn_activity_epoch)

IsSameTree-refl : (v : RuntimeValues) → IsSameTree v v
IsSameTree-refl v = record { monitors = λ t. refl; turn = refl; complete = refl }

IsSameTree-trans : (u v w : RuntimeValues) → IsSameTree u v → IsSameTree v w → IsSameTree u w
IsSameTree-trans u v w a b = record {
  monitors = λ t. a.monitors t ∙ b.monitors t;
  turn = a.turn ∙ b.turn;
  complete = a.complete ∙ b.complete;
}

IsCounted-trans : (u v w : RuntimeValues) → IsCounted u v → IsCounted v w → IsCounted u w
IsCounted-trans u v w (inl (e, a)) (inl (f, b)) = inl (f ∙ e, IsSameTree-trans u v w a b)
IsCounted-trans u v w (inl (e, a)) (inr f) = inr (omega arith)
IsCounted-trans u v w (inr e) (inl (f, b)) = inr (omega arith)
IsCounted-trans u v w (inr e) (inr f) = inr (omega arith)

count_activity-IsCounted :
    (v w : RuntimeValues)
    → w.turn_activity_epoch ≡ v.turn_activity_epoch
    → IsCounted v (count_activity v w)
unfolding count_activity advance_turn_activity_epoch
count_activity-IsCounted v w e = elim (Bool-cases (same_tree v w)) [
  | inl same ↦ simp (same) (inl (e, same_tree-IsSameTree v w same))
  | inr differs ↦ simp (differs) (inr (omega arith))
]

revised : (v w : RuntimeValues) (n : ℕ) → IsCounted v w → IsCounted v (record w { revision = n })
unfolding find_monitor
revised v w n (inr e) = inr e
revised v w n (inl (e, a)) =
    inl (
      e,
      record { monitors = λ t. a.monitors t ∙ unrevised t; turn = a.turn; complete = a.complete },
    )
  where
    unrevised : (t : Target) → find_monitor w t ≡ find_monitor (record w { revision = n }) t
    unrevised none = refl
    unrevised (some id) = refl

process-IsCounted : (v : RuntimeValues) (h : Hook) → IsCounted v (process v h)
unfolding process process_hook apply_hook_event
process-IsCounted v h =
    if_cases (λ (r : Option HookResult × RuntimeValues). IsCounted v r.1)
      (is_session_start h.payload.event || not v.enabled || not h.same_transcript) (none, v) _
      (λ _. inl (refl, IsSameTree-refl v))
      (λ _. revised v _ (v.revision + 1) (
        count_activity-IsCounted v _
          (epoch-apply_event h.payload.event h.payload h.now h.silence_id v)))

process_all-IsCounted : (v : RuntimeValues) (hooks : List Hook) → IsCounted v (process_all v hooks)
unfolding process_all
process_all-IsCounted v [] = inl (refl, IsSameTree-refl v)
process_all-IsCounted v (h ∷ hooks) =
    IsCounted-trans v (process v h) (process_all (process v h) hooks) (process-IsCounted v h)
      (process_all-IsCounted (process v h) hooks)

-- If the whole-turn activity epoch has not moved over a history of hooks, of any events and for
-- any targets, then no monitor of the file, not its parent turn and not the end of that turn
-- differs from what it was before them. Writes of the manager are not among these histories.
pub same_epoch-IsSameTree :
    (v : RuntimeValues) (hooks : List Hook)
    → (process_all v hooks).turn_activity_epoch ≡ v.turn_activity_epoch
    → IsSameTree v (process_all v hooks)
same_epoch-IsSameTree v hooks e = same (process_all-IsCounted v hooks)
  where
    same : IsCounted v (process_all v hooks) → IsSameTree v (process_all v hooks)
    same (inl (f, a)) = a
    same (inr f) = absurd (omega arith)
