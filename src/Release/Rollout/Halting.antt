-- ===== src/Release/Rollout/Halting.antt =====
-- src/release/fleet-rollout.js: a halted rollout stays halted, and a tick starts eligible agents only.
use sidewisp_plugin.Prelude.{
  ℕ, ◌+◌, ◌≡◌, refl, ◌∙◌, String, Bool, true, false, not, ◌&&◌, Option, none, some, List, [], ◌∷◌,
  map, arith, is_some, ltb, if◌then◌else◌, any,
}
use sidewisp_plugin.Prelude.Codes.{Text, same_text}
use sidewisp_plugin.Prelude.Table.{find}
use sidewisp_plugin.Prelude.Sort.{sort}
use sidewisp_plugin.Release.Rollout.{
  is_available, lose, start_all, phase_of, allowlist, Plan, refused, planned, advance,
  plan_fleet_rollout, has_duplicate,
}
use sidewisp_plugin.Release.RolloutState.{
  Release, Diagnostic, Agent, Attempt, id_of, Halt, Rollout, is_fresh, fingerprint_of,
  valid_release,
}
use sidewisp_plugin.Release.Observation.{
  halt_if, halt_on_failure, has_completed, is_correlated, is_failure, complete_one, complete,
  observe, observe_all,
}

ids_complete :
    (id : String) (xs : List Attempt) → map id_of (map (complete_one id) xs) ≡ map id_of xs
ids_complete id [] = refl
ids_complete id (x ∷ xs) = ground (arith, ids_complete id xs)

-- Halted for the reason of `s`, with the attempts of `s`.
abbrev IsStill : Halt → Rollout → Rollout → Type 0
IsStill h s t = (t.halted ≡ some h) × (map id_of t.attempts ≡ map id_of s.attempts)

halt_if-IsStill :
    (h : Halt) (s t : Rollout) (test : Bool) (id reason : String)
    → IsStill h s t
    → IsStill h s (halt_if test id reason t)
unfolding halt_if
halt_if-IsStill h s t test id reason k = ground arith

failure-IsStill :
    (h : Halt) (s t : Rollout) (now : ℕ) (a : Agent) (x : Attempt) (d : Option Diagnostic)
    → IsStill h s t
    → IsStill h s (halt_on_failure now a x d t)
unfolding halt_on_failure
failure-IsStill h s t now a x none k = k
failure-IsStill h s t now a x (some d) k =
    halt_if-IsStill h s t (is_correlated now x d && is_failure d.status) a.id d.status k

completed-IsStill :
    (h : Halt) (s t : Rollout) (done : Bool) (id : String) (key : Text)
    → IsStill h s t
    → IsStill h s (if done then complete id key t else t)
unfolding complete
completed-IsStill h s t true id key k = (k.0, ids_complete id t.attempts ∙ k.1)
completed-IsStill h s t false id key k = k

observe-IsStill :
    (h : Halt) (s t : Rollout) (r : Release) (now : ℕ) (a : Agent) (o : Option Attempt)
    → IsStill h s t
    → IsStill h s (observe r now a o t)
unfolding observe
observe-IsStill h s t r now a none k = k
observe-IsStill h s t r now a (some x) k =
    let regressed = x.completed && is_fresh now a && not (same_text a.version r.version) in
    let t₁ = halt_if regressed a.id "version_regressed" t in
    let t₂ = halt_on_failure now a x a.update t₁ in
    let late = not x.completed && ltb (x.started_at + 3600000) now in
    completed-IsStill h s (halt_if late a.id "attempt_timeout" t₂)
      (has_completed r now a x a.update) a.id x.cohort
      (halt_if-IsStill h s t₂ late a.id "attempt_timeout" (
        failure-IsStill h s t₁ now a x a.update
          (halt_if-IsStill h s t regressed a.id "version_regressed" k)))

observe_all-IsStill :
    (h : Halt) (s t : Rollout) (r : Release) (now : ℕ) (agents : List Agent)
    → IsStill h s t
    → IsStill h s (observe_all r now agents t).0
unfolding observe_all
observe_all-IsStill h s t r now [] k = k
observe_all-IsStill h s t r now (a ∷ agents) k =
    let o = find id_of a.id t.attempts in
    observe_all-IsStill h s (observe r now a o t) r now agents (observe-IsStill h s t r now a o k)

lose-IsStill :
    (h : Halt) (s t : Rollout) (agents : List Agent) (xs : List Attempt)
    → IsStill h s t
    → IsStill h s (lose agents xs t)
unfolding lose
lose-IsStill h s t agents [] k = k
lose-IsStill h s t agents (x ∷ xs) k =
    let gone = not x.completed && not (any (is_available x.attempt_id) agents) in
    lose-IsStill h s (halt_if gone x.attempt_id "installation_unavailable" t) agents xs
      (halt_if-IsStill h s t gone x.attempt_id "installation_unavailable" k)

allowlist_halted :
    (now : ℕ) (agents : List Agent) (t : Rollout) (h : Halt)
    → t.halted ≡ some h
    → allowlist now agents t ≡ []
unfolding allowlist
allowlist_halted now agents t h k = rw k refl

unstarted-IsStill :
    (h : Halt) (s kept other : Rollout)
    → IsStill h s kept
    → IsStill h s (if is_some kept.halted then kept else other)
unstarted-IsStill h s kept other k = by_halt kept.halted k.0
  where
    by_halt : (o : Option Halt) → o ≡ some h → IsStill h s (if is_some o then kept else other)
    by_halt none e = absurd (ground arith)
    by_halt (some g) e = k

-- The plan keeps the halt, starts nothing and allows no installation.
abbrev pub StaysHalted : Halt → Rollout → Plan → Type 0
StaysHalted h s (refused e) = Unit
StaysHalted h s (planned next ids observations) = IsStill h s next × (ids ≡ [])

-- A tick on a halted rollout, if it is not an error, keeps the halt and its reason, starts no new
-- attempt, and plans an empty allowlist: no installation is updated any more.
pub plan-StaysHalted :
    (before : String → String → Bool) (r : Release) (environment : Text) (agents : List Agent)
    (s : Rollout) (now : ℕ) (h : Halt)
    → s.halted ≡ some h
    → StaysHalted h s (plan_fleet_rollout before r environment agents (some s) now)
unfolding plan_fleet_rollout
plan-StaysHalted before r environment agents s now h halted =
    guarded (not (valid_release r environment))
      (not (same_text s.fingerprint (fingerprint_of r environment)))
      (has_duplicate (map (λ a. a.id) agents))
  where
    seen : Rollout
    seen = (observe_all r now agents s).0

    kept : Rollout
    kept = lose agents seen.attempts seen

    still : IsStill h s kept
    still =
        lose-IsStill h s seen agents seen.attempts
          (observe_all-IsStill h s s r now agents (halted, refl))

    guarded :
        (invalid other twice : Bool)
        → StaysHalted h s (
            if invalid
            then refused "INVALID_VERIFIED_RELEASE"
            else if other
            then refused "RELEASE_CHANGE_REQUIRES_NEW_STATE"
            else if twice
            then refused "DUPLICATE_INSTALLATION"
            else advance before r now agents s)
    guarded true other twice = tt
    guarded false true twice = tt
    guarded false false true = tt
    guarded false false false =
        let started = start_all r now (sort (λ a b. before a.id b.id) agents) kept in
        let t : Rollout = (if is_some kept.halted then kept else started) in
        let k = unstarted-IsStill h s kept started still in
        unfold advance in (k, allowlist_halted now agents (record t { phase = phase_of t }) h k.0)
