-- ===== src/OpenClaw/Lifecycle/Runs.antt =====
-- src/adapters/openclaw/hooks.js: the operations that `createOpenClawUserTaskLifecycle` returns, and what a
-- sequence of them makes of a state.
use sidewisp_plugin.Prelude.{ℕ, Option, String, List, [], ◌∷◌}
use sidewisp_plugin.OpenClaw.Lifecycle.{Event, Key, Config, Lifecycle, World}
use sidewisp_plugin.OpenClaw.Lifecycle.Process.{process}
use sidewisp_plugin.OpenClaw.Lifecycle.ActiveWork.{
  ActiveEntry, restore_active_work, fire_timer, flush_pending, cancel_active_runs,
}

pub data Operation : Type 0 where
  processing : World → Event → Operation
  restoring : ℕ → List ActiveEntry → Operation
  firing : World → Key → Operation
  flushing : World → Operation
  cancelling_all : (make : Option String → Option String → Event) → Operation

unfoldable pub perform : Config → Operation → Lifecycle → Lifecycle
unfolding process restore_active_work fire_timer flush_pending cancel_active_runs
perform c (processing world e) l = (process c world e l).0
perform c (restoring now entries) l = (restore_active_work c now entries l).0
perform c (firing world key) l = fire_timer c world key l
perform c (flushing world) l = flush_pending c world l
perform c (cancelling_all make) l = (cancel_active_runs make l).0

unfoldable pub perform_all : Config → List Operation → Lifecycle → Lifecycle
unfolding perform
perform_all c [] l = l
perform_all c (o ∷ os) l = perform_all c os (perform c o l)
