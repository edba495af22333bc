-- ===== src/Tests/Update.antt =====
-- src/update on concrete versions, directives and attempts.
use sidewisp_plugin.Prelude.{◌↔◌, ℕ, ◌≡◌, refl, true, false, none, some, []}
use sidewisp_plugin.Prelude.Codes.{Text, codes, number_from}
use sidewisp_plugin.Update.Version.{is_newer_version}
use sidewisp_plugin.Update.Version.Order.{is_newer_version_strict}
use sidewisp_plugin.Update.Directive.{
  Directive, valid_update_directive, valid_managed_directive, should_apply, is_one_of, same_some,
  is_version, target_spec_version, strip_prefix, spec_prefix, is_delay, is_hex, is_revision,
  is_newer_than, is_single_current, is_interrupted, is_resolved,
}
use sidewisp_plugin.Update.Directive.Admission.{IsAdmissible, should_apply-IsAdmissible}
use sidewisp_plugin.Update.Scheduler.{
  Scheduler, schedule, is_scheduled, blocks_attempt, deferred_states, status_of,
}
use sidewisp_plugin.Update.Scheduler.Launches.{IsScheduled, schedule-IsLaunch}
use sidewisp_plugin.Update.Convergence.{Observation, State, yes, done, retained, converge}
use sidewisp_plugin.Update.Convergence.Bounds.{installs}

abbrev v1 : Text
v1 = codes "1.2.3-rc.1"

abbrev v2 : Text
v2 = codes "1.2.3"

abbrev v0 : Text
v0 = codes "1.2.2"

v2_newer : is_newer_version v2 v1 ≡ true
unfolding is_newer_version number_from
v2_newer = refl

is_newer_version_strict_example :
    (is_newer_version v1 v2 ≡ false)
    × (is_newer_version v1 v0 ≡ true → is_newer_version v2 v0 ≡ true)
is_newer_version_strict_example = is_newer_version_strict v2 v1 v0 v2_newer

abbrev directive : Directive
directive = record {
  schema = some (codes "sidewisp.plugin-update.v1");
  target_version = some v2;
  target_spec = some (codes "git:github.com/golem-workers/sidewisp-plugin@v1.2.3");
  restart_delay_seconds = some 60;
  sha256 = some (codes "0123456789abcdef0123456789abcdef0123456789abcdef0123456789abcdef");
  revision = some (codes "r1");
  mandatory = true;
}

directive_valid : valid_update_directive directive ≡ true
unfolding valid_update_directive same_some is_version target_spec_version strip_prefix spec_prefix
    is_delay
directive_valid = refl

directive_applies : should_apply directive (some v0) none false true ≡ true
unfolding should_apply valid_managed_directive valid_update_directive same_some is_version
    target_spec_version strip_prefix spec_prefix is_delay is_hex is_revision is_newer_than
    number_from is_single_current is_interrupted is_resolved
directive_applies = refl

should_apply-IsAdmissible_example :
    (should_apply directive (some v0) none false true ≡ true)
    ↔ IsAdmissible directive (some v0) none false true
should_apply-IsAdmissible_example = should_apply-IsAdmissible directive (some v0) none false true

directive-IsAdmissible : IsAdmissible directive (some v0) none false true
directive-IsAdmissible = should_apply-IsAdmissible_example.0 directive_applies

abbrev scheduler : Scheduler
scheduler = record {
  current_version = v0;
  scheduled_version = none;
  attempt = none;
  managed = false;
  launches = [];
}

schedule-IsLaunch_example :
    IsScheduled directive 0 scheduler
      (schedule directive 0 scheduler).0
      (schedule directive 0 scheduler).1
schedule-IsLaunch_example = schedule-IsLaunch directive 0 scheduler

directive_starts : (schedule directive 0 scheduler).1 ≡ true
unfolding schedule valid_update_directive same_some is_version target_spec_version strip_prefix
    spec_prefix is_delay is_hex is_newer_than number_from is_scheduled blocks_attempt
directive_starts = refl

not_deferred : is_one_of deferred_states (status_of scheduler.attempt) ≡ false
unfolding is_one_of
not_deferred = refl

-- An installed collector of version 1.2.3 that never becomes ready.
abbrev sick : ℕ → Observation
sick n = record {
  status = some (record {
    version = v2;
    enabled = true;
    running = false;
    connection_ready = false;
    activation_required = false;
  });
  recovered = none;
  verified = true;
  idle = yes;
  install_ends = retained;
  reload_ends = done;
  activate_ends = done;
}

abbrev fresh : State
fresh = record {
  journal = record { mutated = false; activated = false; staged = false; install_count = 0 };
  bad = 0;
}

-- The sick collector is installed twice before the loop gives up.
installs-sick : installs (converge v2 sick 0 40 fresh).actions ≡ 2
unfolding installs converge is_newer_version number_from
installs-sick = refl
