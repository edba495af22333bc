-- ===== src/Update/Directive/Admission.antt =====
-- src/update/directive.js, src/update/manager.js: what an accepted directive has in common.
use sidewisp_plugin.Prelude.{
  ◌↔◌, not, ◌&&◌, ◌||◌, if◌then◌else◌, ◌≡◌, Bool, true, false, Option, arith,
}
use sidewisp_plugin.Prelude.Codes.{Text}
use sidewisp_plugin.Update.Directive.Validity.{IsManaged, valid_managed_directive_iff}
use sidewisp_plugin.Update.Directive.{
  Directive, same_some, valid_managed_directive, Attempt, is_single_current, is_interrupted,
  is_resolved, is_newer_than, should_apply,
}

-- What `shouldApply` lets through.
pub record IsAdmissible (d : Directive) (current : Option Text) (attempt : Option Attempt)
    (active current_ready : Bool) : Type 0 where
  pub idle : active ≡ false
  pub managed : IsManaged d
  pub no_downgrade : is_newer_than current d.target_version ≡ false
  pub no_interruption : is_interrupted attempt ≡ true → is_single_current attempt ≡ true
  pub no_repetition : is_resolved attempt d ≡ false
  pub needed :
      same_some current d.target_version ≡ true
      → current_ready ≡ true
      → is_single_current attempt ≡ true

-- A directive is to be applied just when no other update is active; it is valid: of the schema, with one version
-- named in its target and in its specification, a delay of 30 to 3600 seconds, a digest of 64 hexadecimal
-- digits, a revision of 1 to 80 letters, digits, underscores and dashes, and mandatory; it is no downgrade of the
-- current version; it does not resume an interrupted attempt, unless that is a convergence to the current release;
-- it does not repeat a resolved attempt of the same version and revision; and the ready current version
-- is not installed again, but by such a convergence.
pub should_apply-IsAdmissible :
    (d : Directive) (current : Option Text) (attempt : Option Attempt) (active current_ready : Bool)
    → (should_apply d current attempt active current_ready ≡ true)
      ↔ IsAdmissible d current attempt active current_ready
unfolding should_apply
should_apply-IsAdmissible d current attempt active current_ready = (
  λ h. record {
    idle = ground arith;
    managed = (valid_managed_directive_iff d).0 (ground arith);
    no_downgrade = ground arith;
    no_interruption = λ i. ground arith;
    no_repetition = ground arith;
    needed = λ s r. ground arith;
  },
  λ a.
      by_guards active (valid_managed_directive d) (is_newer_than current d.target_version)
        (same_some current d.target_version) current_ready (is_single_current attempt)
        (is_interrupted attempt) (is_resolved attempt d) a.idle
        ((valid_managed_directive_iff d).1 a.managed) a.no_downgrade a.needed a.no_interruption
        a.no_repetition,
)
  where
    by_guards :
        (busy valid downgrade same ready single interrupted resolved : Bool)
        → busy ≡ false
        → valid ≡ true
        → downgrade ≡ false
        → (same ≡ true → ready ≡ true → single ≡ true)
        → (interrupted ≡ true → single ≡ true)
        → resolved ≡ false
        → (if busy || not valid
            then false
            else if downgrade
            then false
            else if same && ready && not single
            then false
            else if not single && interrupted
            then false
            else if resolved
            then false
            else true)
          ≡ true
    by_guards busy valid downgrade same ready single interrupted resolved b v w n i r = ground arith
