-- ===== src/Release/Observation.antt =====
-- src/release/fleet-rollout.js: the loop over the agents, which completes attempts, halts the rollout and says why an
-- agent waits.
use sidewisp_plugin.Prelude.{
  ℕ, ◌+◌, String, Bool, true, false, not, ◌&&◌, ◌||◌, ◌==◌, Option, none, some, List, [], ◌∷◌, ◌++◌,
  map, is_some, ltb, leb, if◌then◌else◌, contains,
}
use sidewisp_plugin.Prelude.Codes.{Text, same_text}
use sidewisp_plugin.Prelude.Table.{find}
use sidewisp_plugin.Release.RolloutState.{
  Release, Diagnostic, Agent, Attempt, id_of, Rollout, cohort_of, contains_text, is_fresh,
}

-- `next.halted ??= { id, reason }`
unfoldable pub halt_if : Bool → String → String → Rollout → Rollout
halt_if test id reason s =
    if test && not (is_some s.halted)
    then record s { halted = some (record { halt_id = id; reason = reason }) }
    else s

-- `correlated`: the diagnostic is of this attempt.
abbrev pub is_correlated : ℕ → Attempt → Diagnostic → Bool
is_correlated now x d =
    leb x.started_at d.observed_at
    && leb d.observed_at now
    && leb x.started_at d.attempt_at
    && leb d.attempt_at d.observed_at

abbrev pub terminal_failures : List String
terminal_failures = "failed" ∷ "rolled_back" ∷ "rolling_back" ∷ []

abbrev pub is_failure : String → Bool
is_failure status = contains status terminal_failures || status == "skipped"

unfoldable pub halt_on_failure : ℕ → Agent → Attempt → Option Diagnostic → Rollout → Rollout
unfolding halt_if
halt_on_failure now a x none s = s
halt_on_failure now a x (some d) s =
    halt_if (is_correlated now x d && is_failure d.status) a.id d.status s

unfoldable pub has_completed : Release → ℕ → Agent → Attempt → Option Diagnostic → Bool
has_completed r now a x none = false
has_completed r now a x (some d) =
    is_correlated now x d
    && d.status == "completed"
    && same_text a.version r.version
    && is_fresh now a
    && a.credential_active
    && leb (x.started_at + 120000) now

abbrev pub complete_one : String → Attempt → Attempt
complete_one id x = if x.attempt_id == id then record x { completed = true } else x

unfoldable pub complete : String → Text → Rollout → Rollout
complete id key s = record s {
  attempts = map (complete_one id) s.attempts;
  proven = if contains_text key s.proven then s.proven else s.proven ++ key ∷ [];
}

-- The loop over the agents, without the observations that it lists. Each of its tests asks for an
-- attempt.
unfoldable pub observe : Release → ℕ → Agent → Option Attempt → Rollout → Rollout
unfolding halt_if halt_on_failure complete
observe r now a none s = s
observe r now a (some x) s =
    let regressed = x.completed && is_fresh now a && not (same_text a.version r.version) in
    let s₁ = halt_if regressed a.id "version_regressed" s in
    let s₂ = halt_on_failure now a x a.update s₁ in
    let late = not x.completed && ltb (x.started_at + 3600000) now in
    let s₃ = halt_if late a.id "attempt_timeout" s₂ in
    if has_completed r now a x a.update then complete a.id x.cohort s₃ else s₃

abbrev pub is_completed : Option Attempt → Bool
is_completed none = false
is_completed (some x) = x.completed

-- The reason that an observation names, by the attempt as the loop leaves it.
unfoldable pub reason_of : Release → ℕ → Agent → Option Attempt → String
reason_of r now a attempt =
    if a.quarantined
    then "recovery_required"
    else if not (a.status == "active")
    then a.status
    else if not a.credential_active
    then "credential_unavailable"
    else if not (is_fresh now a)
    then "offline"
    else if is_completed attempt
    then "completed"
    else if same_text a.version r.version
    then "version_reported_unverified"
    else if not a.diagnostics_supported
    then "backend_diagnostics_unavailable"
    else if not (contains_text (cohort_of a) r.verified_migrations)
    then "migration_unverified"
    else if is_some attempt
    then "pending"
    else "eligible"

unfoldable pub observe_all : Release → ℕ → List Agent → Rollout → Rollout × List (String × String)
unfolding observe find
observe_all r now [] s = (s, [])
observe_all r now (a ∷ agents) s =
    let s' = observe r now a (find id_of a.id s.attempts) s in
    let (t, observations) = observe_all r now agents s' in
    (t, (a.id, reason_of r now a (find id_of a.id s'.attempts)) ∷ observations)
