-- ===== src/Release/RolloutState.antt =====
-- src/release/fleet-rollout.js: a release, the agents and the state between two ticks of its rollout, with the tests
-- of an agent.
use sidewisp_plugin.Prelude.{
  ℕ, ◌+◌, String, Bool, false, not, ◌&&◌, ◌==◌, Option, none, some, List, ◌∷◌, ◌++◌, leb, eqb, any,
  all, length,
}
use sidewisp_plugin.Prelude.Codes.{Text, same_text}
use sidewisp_plugin.Update.Version.{split_dots, is_numeric, is_newer_version}
use sidewisp_plugin.Update.Directive.{is_hex}

pub record Release : Type 0 where
  pub version : Text
  pub commit : Text
  pub sha256 : Text
  pub environments : List Text
  pub verified_migrations : List Text

-- A diagnostic of an agent's updater. One whose times are missing is like no diagnostic.
pub record Diagnostic : Type 0 where
  pub status : String
  pub observed_at : ℕ
  pub attempt_at : ℕ

pub record Agent : Type 0 where
  pub id : String
  pub runtime : Text
  pub version : Text
  pub runtime_version : Text
  pub quarantined : Bool
  pub diagnostics_supported : Bool
  pub status : String
  pub credential_active : Bool
  pub last_seen : Option ℕ
  pub update : Option Diagnostic

pub record Attempt : Type 0 where
  pub attempt_id : String
  pub cohort : Text
  pub started_at : ℕ
  pub completed : Bool

abbrev pub id_of : Attempt → String
id_of x = x.attempt_id

pub record Halt : Type 0 where
  pub halt_id : String
  pub reason : String

pub data Phase : Type 0 where
  canary rolling halted_phase : Phase

-- The state between two ticks; `attempts` is an object whose keys are the `attempt_id`.
pub record Rollout : Type 0 where
  pub fingerprint : Text
  pub phase : Phase
  pub attempts : List Attempt
  pub proven : List Text
  pub halted : Option Halt

abbrev pub join_slash : Text → Text → Text
join_slash a b = a ++ b'/' ∷ b

unfoldable pub cohort_of : Agent → Text
cohort_of a = join_slash a.runtime (join_slash a.version a.runtime_version)

unfoldable pub contains_text : Text → List Text → Bool
unfolding same_text
contains_text t ts = any (same_text t) ts

-- `/^\d+\.\d+\.\d+$/`
unfoldable pub is_plain_version : Text → Bool
unfolding split_dots
is_plain_version s = let parts = split_dots s in eqb (length parts) 3 && all is_numeric parts

unfoldable pub valid_release : Release → Text → Bool
unfolding is_hex
valid_release r environment =
    is_plain_version r.version
    && is_hex 40 r.commit
    && is_hex 64 r.sha256
    && contains_text environment r.environments

unfoldable pub fingerprint_of : Release → Text → Text
fingerprint_of r environment =
    join_slash environment (join_slash r.version (join_slash r.commit r.sha256))

unfoldable pub is_fresh : ℕ → Agent → Bool
is_fresh now a = elim a.last_seen [
  | none ↦ false
  | some seen ↦ leb seen now && leb now (seen + 120000)
]

unfoldable pub is_eligible : Release → ℕ → Agent → Bool
is_eligible r now a =
    not a.quarantined
    && a.diagnostics_supported
    && a.status == "active"
    && a.credential_active
    && is_fresh now a
    && contains_text (cohort_of a) r.verified_migrations
    && is_newer_version r.version a.version
