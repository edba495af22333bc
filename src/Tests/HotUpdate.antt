-- ===== src/Tests/HotUpdate.antt =====
-- src/update/hot-update.js on a host that holds the old version back once.
use sidewisp_plugin.Prelude.{ℕ, zero, suc, ◌≡◌, ◌≤◌, refl, true, false, none, some, [], ◌∷◌}
use sidewisp_plugin.Prelude.Codes.{Text, codes, same_text}
use sidewisp_plugin.Update.Convergence.{Current, done, retained, yes, install, reload}
use sidewisp_plugin.Update.Convergence.Bounds.{installs}
use sidewisp_plugin.Update.HotUpdate.{
  Observation, State, Counts, is_host_idle, completed, apply_hot_update,
}
use sidewisp_plugin.Update.HotUpdate.Once.{budget, installs-apply_hot_update}
use sidewisp_plugin.Update.HotUpdate.Completion.{IsWell, completed-IsWell}

abbrev target : Text
target = codes "1.2.3"

abbrev running : Text → Current
running version = record {
  version = version;
  enabled = true;
  running = true;
  connection_ready = true;
  activation_required = false;
}

abbrev old_round : Observation
old_round = record {
  status_throws = false;
  status = some (running (codes "1.2.2"));
  idle = yes;
  verified = true;
  install_ends = retained;
  loaded_throws = done;
  loaded = some (running (codes "1.2.2"));
  reload_ends = done;
  cold_ends = none;
}

-- The third round sees the new version.
abbrev world : ℕ → Observation
world zero = old_round
world (suc zero) = old_round
world (suc (suc n)) = record old_round { status = some (running target) }

abbrev fresh : State
fresh = record { staged = false; applied = false; unhealthy = 0; cold_activated = false }

actions-apply_hot_update :
    (apply_hot_update target world 0 120 fresh).actions ≡ install ∷ reload ∷ []
unfolding apply_hot_update same_text
actions-apply_hot_update = refl

installs-apply_hot_update_example :
    installs (apply_hot_update target world 0 120 fresh).actions ≤ budget fresh
installs-apply_hot_update_example = installs-apply_hot_update target world 0 120 fresh

finish-apply_hot_update : (apply_hot_update target world 0 120 fresh).finish ≡ completed
unfolding apply_hot_update same_text
finish-apply_hot_update = refl

completed-IsWell_example : (m : ℕ) × IsWell target (world m)
completed-IsWell_example = completed-IsWell target world 0 120 fresh finish-apply_hot_update

abbrev quiet : Counts
quiet = record { active_count = some 0; queued_count = some 0 }

-- Without a lane the snapshot does not show that the host is idle.
is_host_idle_no_lanes :
    is_host_idle (some (record { ts = some 1; lanes = some []; dynamic = some quiet })) ≡ false
unfolding is_host_idle
is_host_idle_no_lanes = refl
