-- ===== src/Update/Directive.antt =====
-- src/update/directive.js and src/update/manager.js: which update directives are valid, and which
-- of them are applied. src/update/scheduler.js: when an attempt is in the way of another.
pub mod Validity
pub mod Admission
use sidewisp_plugin.Prelude.{
  ℕ, ◌+◌, ◌*◌, ◌≤◌, String, Bool, true, false, not, ◌&&◌, ◌||◌, Option, none, some, List, [], ◌∷◌,
  ltb, leb, eqb, if◌then◌else◌, all, length, is_some,
}
use sidewisp_plugin.Prelude.Codes.{Text, codes, is_digit, is_lower, is_upper, same_text}
use sidewisp_plugin.Update.Version.{Version, parse_version, is_newer_version}

-- A directive as it is parsed from JSON. A field that is missing or of another type than the text
-- or the integer that the code asks for is `none`.
pub record Directive : Type 0 where
  pub schema : Option Text
  pub target_version : Option Text
  pub target_spec : Option Text
  pub restart_delay_seconds : Option ℕ
  pub sha256 : Option Text
  pub revision : Option Text
  pub mandatory : Bool

-- What stands behind a prefix.
unfoldable pub strip_prefix : Text → Text → Option Text
strip_prefix [] s = some s
strip_prefix (c ∷ p) [] = none
strip_prefix (c ∷ p) (d ∷ s) = if eqb c d then strip_prefix p s else none

abbrev pub strip_v : Text → Text
strip_v [] = []
strip_v (c ∷ s) = if eqb c b'v' then s else c ∷ s

unfoldable pub spec_prefix : Text
spec_prefix = codes "git:github.com/golem-workers/sidewisp-plugin@"

abbrev pub checked_version : Option Text → Option Text
checked_version none = none
checked_version (some rest) =
    if is_some (parse_version (strip_v rest)) then some (strip_v rest) else none

-- `targetSpecVersion`
unfoldable pub target_spec_version : Text → Option Text
target_spec_version spec = checked_version (strip_prefix spec_prefix spec)

-- `a === b` where either may be missing, and a missing one is equal to nothing here.
unfoldable pub same_some : Option Text → Option Text → Bool
unfolding same_text
same_some (some a) (some b) = same_text a b
same_some _ _ = false

abbrev pub or_empty : Option Text → Text
or_empty none = []
or_empty (some s) = s

unfoldable pub is_version : Option Text → Bool
unfolding parse_version
is_version none = false
is_version (some s) = is_some (parse_version s)

unfoldable pub is_delay : Option ℕ → Bool
is_delay none = false
is_delay (some n) = leb 30 n && leb n 3600

-- `validUpdateDirective`
unfoldable pub valid_update_directive : Directive → Bool
valid_update_directive d =
    same_some d.schema (some (codes "sidewisp.plugin-update.v1"))
    && is_version d.target_version
    && same_some (target_spec_version (or_empty d.target_spec)) d.target_version
    && is_delay d.restart_delay_seconds

-- `/^[a-f0-9]{n}$/`
unfoldable pub is_hex : ℕ → Text → Bool
is_hex n s = eqb (length s) n && all (λ c. is_digit c || (leb b'a' c && leb c b'f')) s

-- `/^[A-Za-z0-9_-]{1,80}$/`
unfoldable pub is_revision : Text → Bool
is_revision s =
    leb 1 (length s)
    && leb (length s) 80
    && all (λ c. is_upper c || is_lower c || is_digit c || eqb c b'_' || eqb c b'-') s

-- `validManagedDirective`
unfoldable pub valid_managed_directive : Directive → Bool
valid_managed_directive d =
    valid_update_directive d
    && is_hex 64 (or_empty d.sha256)
    && is_revision (or_empty d.revision)
    && d.mandatory

-- What `update-status.json` says of the last attempt.
pub record Attempt : Type 0 where
  pub target_version : Option Text
  pub revision : Option Text
  pub status : Option Text
  pub mode : Option Text
  pub updated_at : Option ℕ

unfoldable pub is_one_of : List Text → Option Text → Bool
unfolding same_text
is_one_of texts none = false
is_one_of [] (some s) = false
is_one_of (t ∷ ts) (some s) = same_text s t || is_one_of ts (some s)

unfoldable pub same_option : Option Text → Option Text → Bool
unfolding same_text
same_option none none = true
same_option (some a) (some b) = same_text a b
same_option _ _ = false

unfoldable pub is_single_current : Option Attempt → Bool
is_single_current none = false
is_single_current (some a) = is_one_of (codes "single_current" ∷ []) a.mode

-- An interrupted mutation: never resumed blindly.
unfoldable pub is_interrupted : Option Attempt → Bool
is_interrupted none = false
is_interrupted (some a) =
    is_one_of (codes "updating" ∷ codes "verifying" ∷ codes "rolling_back" ∷ []) a.status

unfoldable pub is_resolved : Option Attempt → Directive → Bool
is_resolved none d = false
is_resolved (some a) d =
    same_option a.target_version d.target_version
    && same_option a.revision d.revision
    && is_one_of (codes "failed" ∷ codes "rolled_back" ∷ codes "completed" ∷ codes "skipped" ∷ [])
        a.status

unfoldable pub is_newer_than : Option Text → Option Text → Bool
unfolding is_newer_version
is_newer_than (some a) (some b) = is_newer_version a b
is_newer_than _ _ = false

-- `shouldApply`
unfoldable pub should_apply : Directive → Option Text → Option Attempt → Bool → Bool → Bool
should_apply d current attempt active current_ready =
    if active || not (valid_managed_directive d)
    then false
    else if is_newer_than current d.target_version
    then false
    else if same_some current d.target_version && current_ready && not (is_single_current attempt)
    then false
    else if not (is_single_current attempt) && is_interrupted attempt
    then false
    else if is_resolved attempt d
    then false
    else true
