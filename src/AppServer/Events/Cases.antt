-- ===== src/AppServer/Events/Cases.antt =====
-- What a message can do to a connection, for a property of its state.
use codex_must_work.Prelude.{
  ap, eq_iff, ℕ, ◌≡◌, refl, String, not, ◌||◌, Option, none, some, str_eq, is_none, Dict, put,
  Bool-cases, Option-cases, inl, inr,
}
use codex_must_work.AppServer.{
  Members, string_member, object_member, get_member, turn_id, thread_id, read_outcome,
}
use codex_must_work.AppServer.Events.{
  AppServerEventState, record_started, record_completed, record_notice, record_message,
}

module _ (P : AppServerEventState → Type 0) (now : ℕ) (s : AppServerEventState) where
  pub notice_cases :
      (method : Option String) (params : Option Members)
      → P s
      → ((m : Members) (turn : String)
          → params ≡ some m
          → turn_id m ≡ some turn
          → P (record_started now (thread_id m) turn s).1)
      → ((m : Members) (turn : String)
          → params ≡ some m
          → turn_id m ≡ some turn
          → method ≡ some "turn/completed"
          → P (record_completed now (thread_id m) turn (read_outcome m) s))
      → P (record_notice now method params s).1
  unfolding record_notice
  notice_cases none params same started ended = same
  notice_cases (some method) none same started ended = same
  notice_cases (some method) (some params) same started ended =
      elim (Option-cases (turn_id params)) [
        | inl e ↦ simp (record_notice, e) same
        | inr (turn, e) ↦
            simp (record_notice, e)
              (elim (Bool-cases (str_eq method "turn/started")) [
                | inl m ↦ simp m (started params turn refl e)
                | inr m ↦ simp m (elim (Bool-cases (str_eq method "turn/completed")) [
                  | inl f ↦
                      simp f
                        (ended params turn refl e (ap some ((eq_iff method "turn/completed").0 f)))
                  | inr f ↦ simp f same
                ])
              ])
      ]

  pub message_cases :
      (message : Members)
      → ((responses : Dict Members) → P (record s { responses = responses }))
      → ((method : Option String) → P (record s { pending_server_request = method }))
      → P (record_notice now (string_member message "method") (object_member message "params") s).1
      → P (record_message now message s).1
  unfolding record_message
  message_cases message answered asked notice = elim (Option-cases (string_member message "id")) [
    | inl e ↦ simp (record_message, e) notice
    | inr (i, e) ↦
        simp (record_message, e)
          (elim (Bool-cases (
            not (is_none (get_member message "result"))
            || not (is_none (get_member message "error")))) [
              | inl a ↦ simp a (answered (put i message s.responses))
              | inr a ↦ simp a (elim (Bool-cases (not (is_none (string_member message "method")))) [
                | inl m ↦ simp m (asked (string_member message "method"))
                | inr m ↦ simp m notice
              ])
            ])
  ]
