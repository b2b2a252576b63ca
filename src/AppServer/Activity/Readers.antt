-- ===== src/AppServer/Activity/Readers.antt =====
-- The pipe readers of an older connection.
use codex_must_work.Prelude.{
  ℕ, ◌≤◌, ◌≡◌, refl, ap, Bool, true, false, not, List, [], ◌∷◌, ltb, ◌==◌, keep, arith, Bool-cases,
  inl, inr,
}
use codex_must_work.AppServer.Activity.{
  AppServerActivityStream, StreamCall, resets, records, stdout_line, stderr_line, stdout_end,
  marks_closed, correlates, binds, takes, quiet, call, run, deliver, record_current, mark_closed,
  read_stderr_line,
}
use codex_must_work.AppServer.Activity.Cases.{Moves, keeps, publishes, closes, renews, call-Moves}
use codex_must_work.Registry.Routing.{AppServerActivity}
use codex_must_work.Prelude.{Option}

-- A call of a reader that was started before this generation.
abbrev pub is_stale : ℕ → StreamCall → Bool
is_stale g (stdout_line now later message h) = ltb h g
is_stale g (stderr_line line h) = ltb h g
is_stale g (stdout_end reason h) = ltb h g
is_stale g _ = false

abbrev pub is_current : ℕ → StreamCall → Bool
is_current g c = not (is_stale g c)

stale_does_nothing :
    (g : ℕ) (s : AppServerActivityStream) (c : StreamCall)
    → g ≤ s.generation
    → is_stale g c ≡ true
    → call s c ≡ (quiet, s)
unfolding call record_current mark_closed read_stderr_line
stale_does_nothing g s (stdout_line now later message h) le e = simp (different) refl
  where
    different : (h == s.generation) ≡ false
    different = ground arith
stale_does_nothing g s (stderr_line line h) le e = simp (different) refl
  where
    different : (h == s.generation) ≡ false
    different = ground arith
stale_does_nothing g s (stdout_end reason h) le e = simp (different) refl
  where
    different : (h == s.generation) ≡ false
    different = ground arith
stale_does_nothing g s resets le e = cc
stale_does_nothing g s (records now later message) le e = cc
stale_does_nothing g s (marks_closed reason) le e = cc
stale_does_nothing g s (correlates now thread turn) le e = cc
stale_does_nothing g s (binds now thread turn) le e = cc
stale_does_nothing g s (takes id) le e = cc

-- No call takes a stream back to an older generation.
generation-Moves :
    {s q : AppServerActivityStream} {d : Option AppServerActivity}
    → Moves s q d
    → s.generation ≤ q.generation
generation-Moves (keeps a b c d e) = omega arith
generation-Moves (publishes a b c d e f g) = omega arith
generation-Moves (closes a b c d e f g) = omega arith
generation-Moves (renews a b c d) = omega arith

-- The calls of the readers of older connections deliver nothing and change nothing, wherever
-- they come among the calls of other threads: without them, the deliveries and the stream that
-- the calls leave are the same.
pub stale_readers_are_silent :
    (g : ℕ) (s : AppServerActivityStream) (cs : List StreamCall)
    → g ≤ s.generation
    → run s cs ≡ run s (keep (is_current g) cs)
unfolding run
stale_readers_are_silent g s [] le = refl
stale_readers_are_silent g s (c ∷ cs) le = elim (Bool-cases (is_stale g c)) [
  | inl stale ↦ simp (stale, stale_does_nothing g s c le stale) (stale_readers_are_silent g s cs le)
  | inr live ↦ simp (live) (
      ap (deliver (call s c).0.delivered) (
        stale_readers_are_silent g (call s c).1 cs
          (omega (arith, generation-Moves (call-Moves s c)))))
]
