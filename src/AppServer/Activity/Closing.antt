-- ===== src/AppServer/Activity/Closing.antt =====
-- The reports of a lost connection.
use codex_must_work.Prelude.{
  ℕ, suc, ◌+◌, ◌≤◌, ◌≡◌, Option, none, some, List, [], ◌∷◌, arith, count_if, if◌then◌else◌, refl,
  subst, sym,
}
use codex_must_work.Registry.Routing.{AppServerActivity}
use codex_must_work.AppServer.Activity.{
  AppServerActivityStream, StreamCall, run, call, deliver, new_stream,
}
use codex_must_work.AppServer.Activity.Cases.{
  Moves, keeps, publishes, closes, renews, call-Moves, is_closed,
}

-- One report is due for the connection unless it was made.
abbrev due : AppServerActivityStream → ℕ
due s = if s.closed_activity_emitted then 0 else 1

abbrev reports : Option AppServerActivity → ℕ
reports none = 0
reports (some a) = if is_closed a then 1 else 0

count_if-deliver :
    (a : Option AppServerActivity) (r : List AppServerActivity × AppServerActivityStream)
    → count_if is_closed (deliver a r).0 ≡ reports a + count_if is_closed r.0
count_if-deliver none (d, s) = omega arith
count_if-deliver (some a) (d, s) = ground arith

final-deliver :
    (a : Option AppServerActivity) (r : List AppServerActivity × AppServerActivityStream)
    → (deliver a r).1 ≡ r.1
final-deliver none (d, s) = refl
final-deliver (some a) (d, s) = refl

-- What a call reports and adds to the generation is covered by the report that was due.
Moves-due :
    {s q : AppServerActivityStream} {d : Option AppServerActivity}
    → Moves s q d
    → reports d + s.generation + due q ≤ q.generation + due s
Moves-due {s} {q} {d} (keeps a b c g e) = ground arith
Moves-due {s} {q} {d} (publishes a r b c g o e) = ground arith
Moves-due {s} {q} {d} (closes a r b c g o e) = ground arith
Moves-due {s} {q} {d} (renews a b c g) = ground arith

reports-run :
    (s : AppServerActivityStream) (cs : List StreamCall)
    → count_if is_closed (run s cs).0 + s.generation ≤ (run s cs).1.generation + due s
unfolding run
reports-run s [] = ground arith
reports-run s (c ∷ cs) =
    subst
      (λ r.
        count_if is_closed (deliver (call s c).0.delivered (run (call s c).1 cs)).0 + s.generation
        ≤ r.generation + due s)
      (sym (final-deliver (call s c).0.delivered (run (call s c).1 cs)))
      (omega (
        arith,
        count_if-deliver (call s c).0.delivered (run (call s c).1 cs),
        reports-run (call s c).1 cs,
        Moves-due (call-Moves s c),
      ))

-- Whatever calls the threads make on a stream, the losses of connections that are delivered to
-- the listener are at most one for each connection that there has been.
pub closed_once :
    (cs : List StreamCall)
    → count_if is_closed (run new_stream cs).0 ≤ suc (run new_stream cs).1.generation
closed_once cs = omega (arith, reports-run new_stream cs)
