-- ===== src/Release/Rollout/Staging.antt =====
-- src/release/fleet-rollout.js: a cohort that is not proven has one canary, at every tick.
use sidewisp_plugin.Prelude.{
  ℕ, ◌+◌, ◌≤◌, ◌≡◌, refl, ◌⊎◌, inl, inr, String, Bool, true, false, not, ◌&&◌, ◌||◌, Option, none,
  some, List, [], ◌∷◌, ◌++◌, map, arith, is_some, ltb, if◌then◌else◌, Bool-cases, any, filter,
  length, length-append, filter_none,
}
use sidewisp_plugin.Prelude.Codes.{Text, same_text, same_text→eq, same_text_refl}
use sidewisp_plugin.Prelude.Table.{find}
use sidewisp_plugin.Prelude.Sort.{sort}
use sidewisp_plugin.Release.Rollout.{
  persisted, run_ticks, Tick, is_available, lose, start, start_all, initial_or, refused, advance,
  plan_fleet_rollout, has_duplicate,
}
use sidewisp_plugin.Release.RolloutState.{
  Release, Diagnostic, Agent, Attempt, id_of, Rollout, cohort_of, contains_text, is_eligible,
  is_fresh, fingerprint_of, valid_release,
}
use sidewisp_plugin.Release.Observation.{
  halt_if, halt_on_failure, has_completed, is_correlated, is_failure, complete_one, complete,
  observe, observe_all,
}

abbrev in_cohort : Text → Attempt → Bool
in_cohort key x = same_text x.cohort key

abbrev has_succeeded : Text → Attempt → Bool
has_succeeded key x = same_text x.cohort key && x.completed

-- A cohort that is not proven has at most one attempt, and a proven one has a completed attempt.
pub record AreStaged (attempts : List Attempt) (proven : List Text) : Type 0 where
  pub single :
      (key : Text)
      → (contains_text key proven ≡ true) ⊎ (length (filter (in_cohort key) attempts) ≤ 1)
  pub earned :
      (key : Text) → contains_text key proven ≡ true → any (has_succeeded key) attempts ≡ true

abbrev pub IsStaged : Rollout → Type 0
IsStaged s = AreStaged s.attempts s.proven

module _ {ℓ} {A : Type ℓ} (p : A → Bool) where
  any-append : (xs ys : List A) → any p (xs ++ ys) ≡ (any p xs || any p ys)
  any-append [] ys = refl
  any-append (x ∷ xs) ys = ground (arith, any-append xs ys)

  filter-append : (xs ys : List A) → filter p (xs ++ ys) ≡ filter p xs ++ filter p ys
  filter-append [] ys = refl
  filter-append (x ∷ xs) ys = ground (arith, filter-append xs ys)

length-filter_complete :
    (key : Text) (id : String) (xs : List Attempt)
    → length (filter (in_cohort key) (map (complete_one id) xs))
      ≡ length (filter (in_cohort key) xs)
length-filter_complete key id [] = refl
length-filter_complete key id (x ∷ xs) = ground (arith, length-filter_complete key id xs)

succeeded_complete :
    (key : Text) (id : String) (xs : List Attempt)
    → any (has_succeeded key) xs ≡ true
    → any (has_succeeded key) (map (complete_one id) xs) ≡ true
succeeded_complete key id [] h = h
succeeded_complete key id (x ∷ xs) h = ground (arith, succeeded_complete key id xs)

succeeded-found :
    (id : String) (x : Attempt) (xs : List Attempt)
    → find id_of id xs ≡ some x
    → any (has_succeeded x.cohort) (map (complete_one id) xs) ≡ true
unfolding find
succeeded-found id x [] h = absurd (ground arith)
succeeded-found id x (y ∷ xs) h = ground (arith, succeeded-found id x xs, same_text_refl x.cohort)

complete-IsStaged :
    (id : String) (x : Attempt) (s : Rollout)
    → find id_of id s.attempts ≡ some x
    → IsStaged s
    → IsStaged (complete id x.cohort s)
unfolding complete contains_text
complete-IsStaged id x s found h = record {
  single = λ key. ground (
    arith,
    length-filter_complete key id s.attempts,
    h.single key,
    any-append (same_text key) s.proven (x.cohort ∷ []),
  );
  earned = λ key k. ground (
    arith,
    h.earned key,
    succeeded_complete key id s.attempts,
    succeeded-found id x s.attempts found,
    same_text→eq key x.cohort,
    any-append (same_text key) s.proven (x.cohort ∷ []),
  );
}

-- A halt changes neither the attempts nor the proven cohorts.
halt_keeps :
    (P : List Attempt → List Text → Type 0) (test : Bool) (id reason : String) (s : Rollout)
    → P s.attempts s.proven
    → P (halt_if test id reason s).attempts (halt_if test id reason s).proven
unfolding halt_if
halt_keeps P test id reason s h = elim (Bool-cases (test && not (is_some s.halted))) [
  | inl first ↦ rw first h
  | inr kept ↦ rw kept h
]

failure_keeps :
    (P : List Attempt → List Text → Type 0) (now : ℕ) (a : Agent) (x : Attempt)
    (d : Option Diagnostic) (s : Rollout)
    → P s.attempts s.proven
    → P (halt_on_failure now a x d s).attempts (halt_on_failure now a x d s).proven
unfolding halt_on_failure
failure_keeps P now a x none s h = h
failure_keeps P now a x (some d) s h =
    halt_keeps P (is_correlated now x d && is_failure d.status) a.id d.status s h

abbrev IsFound : String → Attempt → List Attempt → List Text → Type 0
IsFound id x attempts proven = (find id_of id attempts ≡ some x) × AreStaged attempts proven

observe-IsStaged :
    (r : Release) (now : ℕ) (a : Agent) (o : Option Attempt) (s : Rollout)
    → find id_of a.id s.attempts ≡ o
    → IsStaged s
    → IsStaged (observe r now a o s)
unfolding observe
observe-IsStaged r now a none s found h = h
observe-IsStaged r now a (some x) s found h =
    by_completion (has_completed r now a x a.update) s₃ third
  where
    regressed : Bool
    regressed = x.completed && is_fresh now a && not (same_text a.version r.version)

    s₁ : Rollout
    s₁ = halt_if regressed a.id "version_regressed" s

    s₂ : Rollout
    s₂ = halt_on_failure now a x a.update s₁

    late : Bool
    late = not x.completed && ltb (x.started_at + 3600000) now

    s₃ : Rollout
    s₃ = halt_if late a.id "attempt_timeout" s₂

    third : IsFound a.id x s₃.attempts s₃.proven
    third = halt_keeps (IsFound a.id x) late a.id "attempt_timeout" s₂ (
        failure_keeps (IsFound a.id x) now a x a.update s₁
          (halt_keeps (IsFound a.id x) regressed a.id "version_regressed" s (found, h)))

    by_completion :
        (done : Bool) (t : Rollout)
        → IsFound a.id x t.attempts t.proven
        → IsStaged (if done then complete a.id x.cohort t else t)
    by_completion true t k = complete-IsStaged a.id x t k.0 k.1
    by_completion false t k = k.1

observe_all-IsStaged :
    (r : Release) (now : ℕ) (agents : List Agent) (s : Rollout)
    → IsStaged s
    → IsStaged (observe_all r now agents s).0
unfolding observe_all
observe_all-IsStaged r now [] s h = h
observe_all-IsStaged r now (a ∷ agents) s h =
    observe_all-IsStaged r now agents (observe r now a (find id_of a.id s.attempts) s)
      (observe-IsStaged r now a (find id_of a.id s.attempts) s refl h)

lose-IsStaged :
    (agents : List Agent) (xs : List Attempt) (s : Rollout)
    → IsStaged s
    → IsStaged (lose agents xs s)
unfolding lose
lose-IsStaged agents [] s h = h
lose-IsStaged agents (x ∷ xs) s h =
    let gone = not x.completed && not (any (is_available x.attempt_id) agents) in
    lose-IsStaged agents xs (halt_if gone x.attempt_id "installation_unavailable" s)
      (halt_keeps AreStaged gone x.attempt_id "installation_unavailable" s h)

start-IsStaged :
    (r : Release) (now : ℕ) (a : Agent) (s : Rollout) → IsStaged s → IsStaged (start r now a s)
unfolding start
start-IsStaged r now a s h =
    elim (Bool-cases (not (is_eligible r now a) || is_some (find id_of a.id s.attempts))) [
      | inl skipped ↦ rw skipped h
      | inr free ↦
          elim (Bool-cases (
            not (contains_text (cohort_of a) s.proven)
            && any (in_cohort (cohort_of a)) s.attempts)) [
              | inl waits ↦ rw (free, waits) h
              | inr first ↦ rw (free, first) (started first)
            ]
    ]
  where
    new : Attempt
    new = record { attempt_id = a.id; cohort = cohort_of a; started_at = now; completed = false }

    started :
        (not (contains_text (cohort_of a) s.proven) && any (in_cohort (cohort_of a)) s.attempts
          ≡ false)
        → AreStaged (s.attempts ++ new ∷ []) s.proven
    started first = record {
      single = λ key. ground (
        arith,
        h.single key,
        filter-append (in_cohort key) s.attempts (new ∷ []),
        length-append (filter (in_cohort key) s.attempts) (new ∷ []),
        length-append (filter (in_cohort key) s.attempts) [],
        same_text→eq (cohort_of a) key,
        filter_none (in_cohort (cohort_of a)) s.attempts,
      );
      earned = λ key k.
          ground (arith, h.earned key k, any-append (has_succeeded key) s.attempts (new ∷ []));
    }

start_all-IsStaged :
    (r : Release) (now : ℕ) (agents : List Agent) (s : Rollout)
    → IsStaged s
    → IsStaged (start_all r now agents s)
unfolding start_all
start_all-IsStaged r now [] s h = h
start_all-IsStaged r now (a ∷ agents) s h =
    start_all-IsStaged r now agents (start r now a s) (start-IsStaged r now a s h)

abbrev pub AllStaged : Option Rollout → Type 0
AllStaged none = Unit
AllStaged (some s) = IsStaged s

initial_or-IsStaged :
    (print : Text) (state : Option Rollout) → AllStaged state → IsStaged (initial_or print state)
unfolding contains_text
initial_or-IsStaged print none h = record {
  single = λ key. inr (omega arith);
  earned = λ key k. absurd (ground arith);
}
initial_or-IsStaged print (some s) h = h

starts-IsStaged :
    (r : Release) (now : ℕ) (agents : List Agent) (halted : Bool) (s : Rollout)
    → IsStaged s
    → IsStaged (if halted then s else start_all r now agents s)
starts-IsStaged r now agents true s h = h
starts-IsStaged r now agents false s h = start_all-IsStaged r now agents s h

plan-IsStaged :
    (before : String → String → Bool) (r : Release) (environment : Text) (agents : List Agent)
    (state : Option Rollout) (now : ℕ)
    → AllStaged state
    → AllStaged (persisted state (plan_fleet_rollout before r environment agents state now))
unfolding plan_fleet_rollout
plan-IsStaged before r environment agents state now h =
    guarded (not (valid_release r environment)) (not (same_text s.fingerprint print))
      (has_duplicate (map (λ a. a.id) agents))
  where
    print : Text
    print = fingerprint_of r environment

    s : Rollout
    s = initial_or print state

    guarded :
        (invalid other twice : Bool)
        → AllStaged (
            persisted state (
              if invalid
              then refused "INVALID_VERIFIED_RELEASE"
              else if other
              then refused "RELEASE_CHANGE_REQUIRES_NEW_STATE"
              else if twice
              then refused "DUPLICATE_INSTALLATION"
              else advance before r now agents s))
    guarded true other twice = h
    guarded false true twice = h
    guarded false false true = h
    guarded false false false =
        let seen = (observe_all r now agents s).0 in
        let kept = lose agents seen.attempts seen in
        unfold advance in
        starts-IsStaged r now (sort (λ a b. before a.id b.id) agents) (is_some kept.halted) kept (
          lose-IsStaged agents seen.attempts seen
            (observe_all-IsStaged r now agents s (initial_or-IsStaged print state h)))

ticks-AllStaged :
    (before : String → String → Bool) (ticks : List Tick) (state : Option Rollout)
    → AllStaged state
    → AllStaged (run_ticks before ticks state)
unfolding run_ticks
ticks-AllStaged before [] state h = h
ticks-AllStaged before (t ∷ ticks) state h =
    ticks-AllStaged before ticks
      (persisted state (plan_fleet_rollout before t.release t.environment t.agents state t.time))
      (plan-IsStaged before t.release t.environment t.agents state t.time h)

-- After any ticks of a controller that starts without a state, whatever the agents report, a cohort
-- that is not proven has been given at most one attempt, and a proven cohort has one that completed.
pub run_ticks-AllStaged :
    (before : String → String → Bool) (ticks : List Tick) → AllStaged (run_ticks before ticks none)
run_ticks-AllStaged before ticks = ticks-AllStaged before ticks none tt
