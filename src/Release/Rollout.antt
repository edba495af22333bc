-- ===== src/Release/Rollout.antt =====
-- src/release/fleet-rollout.js: `planFleetRollout`, one tick of the rollout of a release.
pub mod Staging
pub mod Halting
pub mod Starts
use sidewisp_plugin.Prelude.{
  ℕ, ◌+◌, String, Bool, true, false, not, ◌&&◌, ◌||◌, ◌==◌, Option, none, some, List, [], ◌∷◌, ◌++◌,
  map, is_some, ltb, leb, eqb, if◌then◌else◌, any, all, filter, length, contains,
}
use sidewisp_plugin.Prelude.Codes.{Text, codes, is_digit, same_text}
use sidewisp_plugin.Prelude.Table.{find}
use sidewisp_plugin.Prelude.Sort.{sort}
use sidewisp_plugin.Prelude.Texts.{text_leb}
use sidewisp_plugin.Update.Version.{split_dots, is_numeric, is_newer_version}
use sidewisp_plugin.Update.Directive.{is_hex}
use sidewisp_plugin.Release.RolloutState.{
  Release, Agent, Attempt, id_of, Phase, Rollout, cohort_of, contains_text, valid_release,
  fingerprint_of, is_fresh, is_eligible, canary, rolling, halted_phase,
}
use sidewisp_plugin.Release.Observation.{halt_if, observe_all}

abbrev pub is_available : String → Agent → Bool
is_available id a = a.id == id && a.status == "active" && a.credential_active

-- Disappearance of a running canary is not a success.
unfoldable pub lose : List Agent → List Attempt → Rollout → Rollout
unfolding halt_if
lose agents [] s = s
lose agents (x ∷ attempts) s = lose agents attempts (
    halt_if (not x.completed && not (any (is_available x.attempt_id) agents)) x.attempt_id
      "installation_unavailable" s)

unfoldable pub start : Release → ℕ → Agent → Rollout → Rollout
unfolding find is_eligible
start r now a s =
    if not (is_eligible r now a) || is_some (find id_of a.id s.attempts)
    then s
    else if not (contains_text (cohort_of a) s.proven)
        && any (λ x. same_text x.cohort (cohort_of a)) s.attempts
    then s
    else record s {
      attempts =
          s.attempts
          ++ record { attempt_id = a.id; cohort = cohort_of a; started_at = now; completed = false }
            ∷ [];
    }

unfoldable pub start_all : Release → ℕ → List Agent → Rollout → Rollout
unfolding start
start_all r now [] s = s
start_all r now (a ∷ agents) s = start_all r now agents (start r now a s)

abbrev pub phase_of : Rollout → Phase
phase_of s =
    if is_some s.halted then halted_phase else if ltb 0 (length s.proven) then rolling else canary

abbrev pub is_running : Option Attempt → Bool
is_running none = false
is_running (some x) = not x.completed

unfoldable pub is_allowed : ℕ → Rollout → Agent → Bool
unfolding find
is_allowed now s a =
    not a.quarantined
    && a.status == "active"
    && a.credential_active
    && is_fresh now a
    && is_running (find id_of a.id s.attempts)

unfoldable pub allowlist : ℕ → List Agent → Rollout → List String
unfolding is_allowed sort text_leb
allowlist now agents s =
    if is_some s.halted
    then []
    else sort text_leb (map (λ a. a.id) (filter (is_allowed now s) agents))

-- `structuredClone(state ?? …)`
abbrev pub initial_or : Text → Option Rollout → Rollout
initial_or print none = record {
  fingerprint = print;
  phase = canary;
  attempts = [];
  proven = [];
  halted = none;
}
initial_or print (some s) = s

-- The state that is planned, the allowlist of its policy, and the observations; or the error.
pub data Plan : Type 0 where
  refused : String → Plan
  planned : Rollout → List String → List (String × String) → Plan

abbrev pub has_duplicate : List String → Bool
has_duplicate [] = false
has_duplicate (id ∷ ids) = contains id ids || has_duplicate ids

unfoldable pub advance : (String → String → Bool) → Release → ℕ → List Agent → Rollout → Plan
unfolding observe_all lose start_all sort allowlist
advance before r now agents s =
    let (observed, observations) = observe_all r now agents s in
    let kept = lose agents observed.attempts observed in
    let started =
      if is_some kept.halted
      then kept
      else start_all r now (sort (λ a b. before a.id b.id) agents) kept in
    let next = record started { phase = phase_of started } in
    planned next (allowlist now agents next) observations

-- `state` is none before the first tick. `before` is `localeCompare`, the order of the starts.
unfoldable pub plan_fleet_rollout :
    (String → String → Bool) → Release → Text → List Agent → Option Rollout → ℕ → Plan
unfolding advance
plan_fleet_rollout before r environment agents state now =
    let print = fingerprint_of r environment in
    let s = initial_or print state in
    if not (valid_release r environment)
    then refused "INVALID_VERIFIED_RELEASE"
    else if not (same_text s.fingerprint print)
    then refused "RELEASE_CHANGE_REQUIRES_NEW_STATE"
    else if has_duplicate (map (λ a. a.id) agents)
    then refused "DUPLICATE_INSTALLATION"
    else advance before r now agents s

-- What the controller gives to a tick.
pub record Tick : Type 0 where
  pub release : Release
  pub environment : Text
  pub agents : List Agent
  pub time : ℕ

-- The controller persists the state that is planned; an error leaves the old one.
abbrev pub persisted : Option Rollout → Plan → Option Rollout
persisted old (refused e) = old
persisted old (planned s ids observations) = some s

unfoldable pub run_ticks : (String → String → Bool) → List Tick → Option Rollout → Option Rollout
unfolding plan_fleet_rollout
run_ticks before [] state = state
run_ticks before (t ∷ ticks) state =
    run_ticks before ticks
      (persisted state (plan_fleet_rollout before t.release t.environment t.agents state t.time))
