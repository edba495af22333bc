-- ===== src/Update/Scheduler/Launches.antt =====
-- src/update/scheduler.js: when a helper is started.
use sidewisp_plugin.Prelude.{
  ℕ, Bool, false, ◌↔◌, ◌≡◌, true, false, Option, none, some, ◌∷◌, arith, is_some,
}
use sidewisp_plugin.Prelude.Codes.{Text, same_text_refl}
use sidewisp_plugin.Update.Directive.{
  Directive, or_empty, valid_update_directive, is_one_of, is_newer_than, same_some,
}
use sidewisp_plugin.Update.Directive.Validity.{
  IsValid, valid_update_directive_iff, IsDigest, is_hex_iff,
}
use sidewisp_plugin.Update.Scheduler.{
  Scheduler, blocks_attempt, status_of, is_scheduled, deferred_states, schedule,
}

same_some_refl : (o : Option Text) → is_some o ≡ true → same_some o o ≡ true
unfolding same_some
same_some_refl none h = cc
same_some_refl (some s) h = same_text_refl s

has_target : (d : Directive) → valid_update_directive d ≡ true → is_some d.target_version ≡ true
has_target d h = ground (arith, ((valid_update_directive_iff d).0 h).target.target)

-- A directive that was scheduled is not scheduled again at any later time, unless the status file
-- says that its attempt was deferred.
pub schedule_once :
    (d : Directive) (now later : ℕ) (s : Scheduler)
    → (schedule d now s).1 ≡ true
    → is_one_of deferred_states (status_of s.attempt) ≡ false
    → schedule d later (schedule d now s).0 ≡ ((schedule d now s).0, false)
unfolding schedule is_scheduled
schedule_once d now later s h n = ground (arith, same_some_refl d.target_version, has_target d)

-- What a launch is: a valid directive with a digest, newer than the current version, that nothing blocks.
pub record IsLaunch (d : Directive) (now : ℕ) (s : Scheduler) : Type 0 where
  pub unmanaged : s.managed ≡ false
  pub valid : IsValid d
  pub digest : IsDigest (or_empty d.sha256)
  pub newer : is_newer_than d.target_version (some s.current_version) ≡ true
  -- The version that was scheduled last is launched again only where its attempt was deferred.
  pub unscheduled :
      same_some d.target_version s.scheduled_version ≡ true
      → is_one_of deferred_states (status_of s.attempt) ≡ true
  pub unblocked : blocks_attempt s.attempt d.target_version now ≡ false

-- What `schedule` does in each of the two cases
pub record IsScheduled (d : Directive) (now : ℕ) (s s' : Scheduler) (started : Bool) : Type 0 where
  pub exact : (started ≡ true) ↔ IsLaunch d now s
  pub one_helper :
      started ≡ true → (s'.launches ≡ d ∷ s.launches) × (s'.scheduled_version ≡ d.target_version)
  pub no_change : started ≡ false → s' ≡ s
  pub once :
      started ≡ true
      → is_one_of deferred_states (status_of s.attempt) ≡ false
      → (later : ℕ) → schedule d later s' ≡ (s', false)

-- `schedule` returns true just when no manager is installed and the directive is valid, has a digest, is newer than
-- the current version, is not the one that was scheduled before unless its attempt was deferred, and no running or
-- ended attempt blocks it. Then it has started one helper, and the same directive starts no other at any later time
-- while the status file is the same and does not say deferred. When it returns false it has changed nothing.
pub schedule-IsLaunch :
    (d : Directive) (now : ℕ) (s : Scheduler)
    → IsScheduled d now s (schedule d now s).0 (schedule d now s).1
unfolding schedule is_scheduled
schedule-IsLaunch d now s = record {
  exact = (
    λ h. record {
      unmanaged = ground arith;
      valid = (valid_update_directive_iff d).0 (ground arith);
      digest = (is_hex_iff (or_empty d.sha256)).0 (ground arith);
      newer = ground arith;
      unscheduled = λ e. ground arith;
      unblocked = ground arith;
    },
    λ l. ground (
      arith,
      l.unmanaged,
      (valid_update_directive_iff d).1 l.valid,
      (is_hex_iff (or_empty d.sha256)).1 l.digest,
      l.newer,
      l.unscheduled,
      l.unblocked,
    ),
  );
  one_helper = λ h. (ground arith, ground arith);
  no_change = λ h. ground arith;
  once = λ h n later. schedule_once d now later s h n;
}
