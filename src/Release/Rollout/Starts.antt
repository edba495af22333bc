-- ===== src/Release/Rollout/Starts.antt =====
-- src/release/fleet-rollout.js: which installations a tick starts.
use sidewisp_plugin.Prelude.{
  ℕ, ◌+◌, ◌≡◌, refl, ◌⊎◌, inl, inr, String, Bool, true, false, not, ◌&&◌, ◌||◌, ◌==◌, Option, none,
  some, List, [], ◌∷◌, ◌++◌, map, arith, is_some, ltb, if◌then◌else◌, Bool-cases, any, All,
  All-map_prop, eq_refl,
}
use sidewisp_plugin.Prelude.Codes.{Text, same_text}
use sidewisp_plugin.Prelude.Table.{find}
use sidewisp_plugin.Prelude.Sort.{sort, All-sort}
use sidewisp_plugin.Release.Rollout.{
  is_available, lose, start, start_all, initial_or, Plan, refused, planned, advance,
  plan_fleet_rollout, has_duplicate,
}
use sidewisp_plugin.Release.RolloutState.{
  Release, Diagnostic, Agent, Attempt, id_of, Rollout, cohort_of, contains_text, is_eligible,
  is_fresh, fingerprint_of, valid_release,
}
use sidewisp_plugin.Release.Observation.{
  halt_if, halt_on_failure, has_completed, is_correlated, is_failure, complete_one, complete,
  observe, observe_all,
}

-- Every attempt has an identifier that is `P`.
abbrev AllIds : (String → Type 0) → Rollout → Type 0
AllIds P s = All (λ x. P x.attempt_id) s.attempts

module _ (P : String → Type 0) where
  AllIds-complete_one :
      (id : String) (xs : List Attempt)
      → All (λ x. P x.attempt_id) xs
      → All (λ x. P x.attempt_id) (map (complete_one id) xs)
  AllIds-complete_one id [] h = tt
  AllIds-complete_one id (x ∷ xs) h = (same (x.attempt_id == id), AllIds-complete_one id xs h.1)
    where
      same : (b : Bool) → P (if b then record x { completed = true } else x).attempt_id
      same true = h.0
      same false = h.0

  halt_ids :
      (test : Bool) (id reason : String) (s : Rollout)
      → AllIds P s
      → AllIds P (halt_if test id reason s)
  unfolding halt_if
  halt_ids test id reason s h = elim (Bool-cases (test && not (is_some s.halted))) [
    | inl first ↦ rw first h
    | inr kept ↦ rw kept h
  ]

  failure_ids :
      (now : ℕ) (a : Agent) (x : Attempt) (d : Option Diagnostic) (s : Rollout)
      → AllIds P s
      → AllIds P (halt_on_failure now a x d s)
  unfolding halt_on_failure
  failure_ids now a x none s h = h
  failure_ids now a x (some d) s h =
      halt_ids (is_correlated now x d && is_failure d.status) a.id d.status s h

  observe_ids :
      (r : Release) (now : ℕ) (a : Agent) (o : Option Attempt) (s : Rollout)
      → AllIds P s
      → AllIds P (observe r now a o s)
  unfolding observe
  observe_ids r now a none s h = h
  observe_ids r now a (some x) s h =
      let regressed = x.completed && is_fresh now a && not (same_text a.version r.version) in
      let s₁ = halt_if regressed a.id "version_regressed" s in
      let s₂ = halt_on_failure now a x a.update s₁ in
      let late = not x.completed && ltb (x.started_at + 3600000) now in
      by_completion (has_completed r now a x a.update) (halt_if late a.id "attempt_timeout" s₂) (
        halt_ids late a.id "attempt_timeout" s₂
          (failure_ids now a x a.update s₁ (halt_ids regressed a.id "version_regressed" s h)))
    where
      by_completion :
          (done : Bool) (t : Rollout)
          → AllIds P t
          → AllIds P (if done then complete a.id x.cohort t else t)
      by_completion true t k = unfold complete in AllIds-complete_one a.id t.attempts k
      by_completion false t k = k

  observe_all_ids :
      (r : Release) (now : ℕ) (agents : List Agent) (s : Rollout)
      → AllIds P s
      → AllIds P (observe_all r now agents s).0
  unfolding observe_all
  observe_all_ids r now [] s h = h
  observe_all_ids r now (a ∷ agents) s h =
      let o = find id_of a.id s.attempts in
      observe_all_ids r now agents (observe r now a o s) (observe_ids r now a o s h)

  lose_ids :
      (agents : List Agent) (xs : List Attempt) (s : Rollout)
      → AllIds P s
      → AllIds P (lose agents xs s)
  unfolding lose
  lose_ids agents [] s h = h
  lose_ids agents (x ∷ xs) s h =
      let gone = not x.completed && not (any (is_available x.attempt_id) agents) in
      lose_ids agents xs (halt_if gone x.attempt_id "installation_unavailable" s)
        (halt_ids gone x.attempt_id "installation_unavailable" s h)

  All-snoc :
      (xs : List Attempt) (x : Attempt)
      → All (λ y. P y.attempt_id) xs
      → P x.attempt_id
      → All (λ y. P y.attempt_id) (xs ++ x ∷ [])
  All-snoc [] x h p = (p, tt)
  All-snoc (y ∷ xs) x h p = (h.0, All-snoc xs x h.1 p)

  start_ids :
      (r : Release) (now : ℕ) (a : Agent) (s : Rollout)
      → (is_eligible r now a ≡ true → P a.id)
      → AllIds P s
      → AllIds P (start r now a s)
  unfolding start
  start_ids r now a s p h =
      by_tests (is_eligible r now a) (is_some (find id_of a.id s.attempts))
        (not (contains_text (cohort_of a) s.proven)
          && any (λ x. same_text x.cohort (cohort_of a)) s.attempts)
        p
    where
      new : Attempt
      new = record { attempt_id = a.id; cohort = cohort_of a; started_at = now; completed = false }

      by_tests :
          (fit tried waits : Bool)
          → (fit ≡ true → P a.id)
          → AllIds P (
              if not fit || tried
              then s
              else if waits
              then s
              else record s { attempts = s.attempts ++ new ∷ [] })
      by_tests false tried waits q = h
      by_tests true true waits q = h
      by_tests true false true q = h
      by_tests true false false q = All-snoc s.attempts new h (q refl)

  start_all_ids :
      (r : Release) (now : ℕ) (agents : List Agent) (s : Rollout)
      → All (λ a. is_eligible r now a ≡ true → P a.id) agents
      → AllIds P s
      → AllIds P (start_all r now agents s)
  unfolding start_all
  start_all_ids r now [] s p h = h
  start_all_ids r now (a ∷ agents) s p h =
      start_all_ids r now agents (start r now a s) p.1 (start_ids r now a s p.0 h)

-- An attempt that the state already had, or an eligible agent.
abbrev pub IsAccepted : Release → ℕ → List Agent → Rollout → String → Type 0
IsAccepted r now agents s id =
    (is_some (find id_of id s.attempts) ≡ true)
    ⊎ (any (λ a. a.id == id && is_eligible r now a) agents ≡ true)

had_attempts : (xs : List Attempt) → All (λ x. is_some (find id_of x.attempt_id xs) ≡ true) xs
unfolding find
had_attempts [] = tt
had_attempts (x ∷ xs) = (
  ground (arith, eq_refl x.attempt_id),
  All-map_prop (λ y. is_some (find id_of y.attempt_id xs) ≡ true)
      (λ y. is_some (find id_of y.attempt_id (x ∷ xs)) ≡ true) xs (λ y k. ground (arith, k))
      (had_attempts xs),
)

are_among :
    (r : Release) (now : ℕ) (agents : List Agent)
    → All
        (λ a.
          is_eligible r now a ≡ true → any (λ b. b.id == a.id && is_eligible r now b) agents ≡ true)
        agents
are_among r now [] = tt
are_among r now (a ∷ agents) = (
  λ k. ground (arith, eq_refl a.id),
  All-map_prop
      (λ c.
        is_eligible r now c ≡ true → any (λ b. b.id == c.id && is_eligible r now b) agents ≡ true)
      (λ c.
        is_eligible r now c ≡ true
        → any (λ b. b.id == c.id && is_eligible r now b) (a ∷ agents) ≡ true)
      agents (λ c k e. ground (arith, k e)) (are_among r now agents),
)

abbrev pub StartsAccepted : Release → ℕ → List Agent → Rollout → Plan → Type 0
StartsAccepted r now agents s (refused e) = Unit
StartsAccepted r now agents s (planned next ids observations) =
    All (λ x. IsAccepted r now agents s x.attempt_id) next.attempts

-- Each attempt of the state that a tick plans was there before, or is of an agent of the tick that is
-- eligible: active, not quarantined, with a credential and a fresh report, and of an older version
-- whose migration is verified.
pub plan-StartsAccepted :
    (before : String → String → Bool) (r : Release) (environment : Text) (agents : List Agent)
    (state : Option Rollout) (now : ℕ)
    → StartsAccepted r now agents
        (initial_or (fingerprint_of r environment) state)
        (plan_fleet_rollout before r environment agents state now)
unfolding plan_fleet_rollout
plan-StartsAccepted before r environment agents state now =
    guarded (not (valid_release r environment))
      (not (same_text s.fingerprint (fingerprint_of r environment)))
      (has_duplicate (map (λ a. a.id) agents))
  where
    s : Rollout
    s = initial_or (fingerprint_of r environment) state

    P : String → Type 0
    P = IsAccepted r now agents s

    seen : Rollout
    seen = (observe_all r now agents s).0

    kept : Rollout
    kept = lose agents seen.attempts seen

    before_starts : AllIds P kept
    before_starts = lose_ids P agents seen.attempts seen (
        observe_all_ids P r now agents s (
          All-map_prop (λ x. is_some (find id_of x.attempt_id s.attempts) ≡ true)
            (λ x. P x.attempt_id) s.attempts (λ x k. inl k) (had_attempts s.attempts)))

    eligible :
        All (λ a. is_eligible r now a ≡ true → P a.id) (sort (λ a b. before a.id b.id) agents)
    eligible =
        All-sort (λ a b. before a.id b.id) (λ a. is_eligible r now a ≡ true → P a.id) agents
          (All-map_prop
            (λ a.
              is_eligible r now a ≡ true
              → any (λ b. b.id == a.id && is_eligible r now b) agents ≡ true)
            (λ a. is_eligible r now a ≡ true → P a.id) agents (λ a k e. inr (k e))
            (are_among r now agents))

    started :
        (halted : Bool)
        → AllIds P
            (if halted then kept else start_all r now (sort (λ a b. before a.id b.id) agents) kept)
    started true = before_starts
    started false =
        start_all_ids P r now (sort (λ a b. before a.id b.id) agents) kept eligible before_starts

    guarded :
        (invalid other twice : Bool)
        → StartsAccepted r now agents s (
            if invalid
            then refused "INVALID_VERIFIED_RELEASE"
            else if other
            then refused "RELEASE_CHANGE_REQUIRES_NEW_STATE"
            else if twice
            then refused "DUPLICATE_INSTALLATION"
            else advance before r now agents s)
    guarded true other twice = tt
    guarded false true twice = tt
    guarded false false true = tt
    guarded false false false = unfold advance in started (is_some kept.halted)
