-- ===== src/Core/Health/Worst.antt =====
-- src/core/health.js: the overall status is the worst one of the supported checks.
use sidewisp_plugin.Prelude.{
  ℕ, zero, suc, ◌-◌, ◌≡◌, refl, String, Bool, true, false, not, Option, none, some, List, [], ◌∷◌,
  map, arith, leb, eqb, if◌then◌else◌, any, filter, length, All,
}
use sidewisp_plugin.Prelude.Codes.{Text, codes}
use sidewisp_plugin.Core.Health.{
  Status, healthy, degraded, unhealthy, unsupported, health_checks, is_safe_reason, Reason,
  undefined, no_text, reason_text, Returned, invalid, result, Check, normalize_reason,
  normalize_result, Probe, no_probe, fails, late, returns, run_bounded_probe, is_unsupported,
  is_unhealthy, is_degraded, overall_of, snapshot,
}

-- How bad a status is; an unsupported check does not count.
abbrev pub badness : Status → ℕ
badness healthy = 1
badness degraded = 2
badness unhealthy = 3
badness unsupported = 0

abbrev pub larger : ℕ → ℕ → ℕ
larger m n = if leb m n then n else m

-- The largest badness of the checks, 0 where all are unsupported.
unfoldable pub worst : List Check → ℕ
worst [] = 0
worst (c ∷ checks) = larger (badness c.status) (worst checks)

-- The badness of the overall status, by that of the checks.
abbrev pub expected : ℕ → ℕ
expected zero = 2
expected (suc n) = suc n

worst_split :
    (checks : List Check)
    → let supported = filter (λ c. not (is_unsupported c.status)) checks in
      worst checks ≡ (
        if any (λ c. is_unhealthy c.status) supported
        then 3
        else if any (λ c. is_degraded c.status) supported
        then 2
        else if eqb (length supported) 0
        then 0
        else 1)
unfolding worst
worst_split [] = refl
worst_split (c ∷ checks) = ground (arith, worst_split checks)

abbrev pub IsSafe : Option Text → Type 0
IsSafe none = Unit
IsSafe (some s) = is_safe_reason s ≡ true

badness-overall_of : (checks : List Check) → badness (overall_of checks) ≡ expected (worst checks)
unfolding overall_of
badness-overall_of checks =
    let supported = filter (λ c. not (is_unsupported c.status)) checks in
    by_tests (worst checks) (any (λ c. is_unhealthy c.status) supported)
      (any (λ c. is_degraded c.status) supported) (eqb (length supported) 0) (worst_split checks)
  where
    by_tests :
        (n : ℕ) (bad poor idle : Bool)
        → n ≡ (if bad then 3 else if poor then 2 else if idle then 0 else 1)
        → badness (
            if bad
            then unhealthy
            else if poor
            then degraded
            else if idle
            then degraded
            else healthy)
          ≡ expected n
    by_tests n true poor idle q = rw q refl
    by_tests n false true idle q = rw q refl
    by_tests n false false true q = rw q refl
    by_tests n false false false q = rw q refl

constant-IsSafe :
    IsSafe (some (codes "probe-failed"))
    × IsSafe (some (codes "invalid-probe-reason"))
    × IsSafe (some (codes "invalid-probe-result"))
    × IsSafe (some (codes "probe-unavailable"))
unfolding is_safe_reason
constant-IsSafe = (refl, refl, refl, refl)

reason-IsSafe : (r : Reason) → IsSafe (normalize_reason r)
unfolding normalize_reason
reason-IsSafe undefined = tt
reason-IsSafe no_text = constant-IsSafe.1
reason-IsSafe (reason_text s) = by_test (is_safe_reason s) refl
  where
    by_test :
        (b : Bool)
        → is_safe_reason s ≡ b
        → IsSafe (if b then some s else some (codes "invalid-probe-reason"))
    by_test true q = q
    by_test false q = constant-IsSafe.1

result-IsSafe : (name : String) (r : Returned) (n : ℕ) → IsSafe (normalize_result name r n).reason
unfolding normalize_result
result-IsSafe name invalid n = constant-IsSafe.2
result-IsSafe name (result status reason) n = reason-IsSafe reason

probe-IsSafe : (name : String) (p : Probe) → IsSafe (run_bounded_probe name p).reason
unfolding run_bounded_probe
probe-IsSafe name no_probe = constant-IsSafe.3
probe-IsSafe name (fails started ended) = constant-IsSafe.0
probe-IsSafe name (late started ended) =
    result-IsSafe name (result degraded (reason_text (codes "probe-timeout"))) (ended - started)
probe-IsSafe name (returns started ended r) = result-IsSafe name r (ended - started)

probes-AreSafe :
    (probes : String → Probe) (names : List String)
    → All (λ c. IsSafe c.reason) (map (λ name. run_bounded_probe name (probes name)) names)
probes-AreSafe probes [] = tt
probes-AreSafe probes (name ∷ names) =
    (probe-IsSafe name (probes name), probes-AreSafe probes names)

-- Whatever the probes do, the overall status of a snapshot is the worst status of its supported
-- checks, or degraded where no check is supported, and each reason that a check names is a short
-- identifier.
pub snapshot-worst :
    (probes : String → Probe)
    → let s = snapshot probes in
      (badness s.overall ≡ expected (worst s.checks)) × All (λ c. IsSafe c.reason) s.checks
unfolding snapshot
snapshot-worst probes = (
  badness-overall_of (map (λ name. run_bounded_probe name (probes name)) health_checks),
  probes-AreSafe probes health_checks,
)
