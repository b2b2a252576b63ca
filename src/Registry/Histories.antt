-- ===== src/Registry/Histories.antt =====
-- The calls of the threads of a daemon on its registry, in any order.
use codex_must_work.Prelude.{ℕ, String, Bool, List, [], ◌∷◌, Dict}
use codex_must_work.Manager.{Values}
use codex_must_work.Registry.{
  DaemonTask, DaemonRegistry, publish, discard_index, detach, detach_all,
}
use codex_must_work.Registry.Routing.{AppServerActivity, Reading, selected_locked}
use codex_must_work.Registry.Interrupts.{enter_interrupt, finish_interrupt, leave_interrupt}

-- A step under the lock; `writes` is a change of the runtime files by anybody else.
pub data Step : Type 0 where
  publishes discards : DaemonTask → Step
  detaches : List DaemonTask → Step
  detaches_all : Step
  selects : AppServerActivity → Reading → Step
  enters : ℕ → String → Step
  finishes : ℕ → String → ℕ → Bool → Step
  leaves : String → Step
  writes : Dict Values → Step

unfoldable pub step : DaemonRegistry → Step → DaemonRegistry
unfolding publish discard_index detach detach_all selected_locked enter_interrupt finish_interrupt
    leave_interrupt
step r (publishes task) = publish task r
step r (discards task) = discard_index task r
step r (detaches tasks) = (detach tasks r).2
step r detaches_all = (detach_all r).2
step r (selects activity reading) = (selected_locked activity reading r).1
step r (enters now turn) = (enter_interrupt now turn r).1
step r (finishes now turn event succeeded) = finish_interrupt now turn event succeeded r
step r (leaves turn) = (leave_interrupt turn r).2
step r (writes files) = record r { files = files }

unfoldable pub steps : DaemonRegistry → List Step → DaemonRegistry
unfolding step
steps r [] = r
steps r (s ∷ ss) = steps (step r s) ss
