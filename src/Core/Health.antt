-- ===== src/Core/Health.antt =====
-- src/core/health.js: the checks of a health snapshot and its overall status.
pub mod Worst
use sidewisp_plugin.Prelude.{
  ℕ, ◌+◌, ◌-◌, String, Bool, true, false, not, ◌&&◌, ◌||◌, Option, none, some, List, [], ◌∷◌, map,
  leb, eqb, if◌then◌else◌, any, all, filter, length,
}
use sidewisp_plugin.Prelude.Codes.{Text, codes, is_digit, is_lower}

pub data Status : Type 0 where
  healthy degraded unhealthy unsupported : Status

abbrev pub health_checks : List String
health_checks = "process" ∷ "gateway" ∷ "config" ∷ "collector" ∷ "queue" ∷ "spool" ∷ []

-- `/^[a-z0-9][a-z0-9._-]{0,63}$/`
unfoldable pub is_safe_reason : Text → Bool
is_safe_reason [] = false
is_safe_reason (c ∷ s) =
    (is_lower c || is_digit c)
    && leb (length s) 63
    && all (λ n. is_lower n || is_digit n || eqb n b'.' || eqb n b'_' || eqb n b'-') s

-- The `reason` of a probe's result: undefined, of another type, or a text.
pub data Reason : Type 0 where
  undefined no_text : Reason
  reason_text : Text → Reason

-- What a probe returns: no object of a known status, or one.
pub data Returned : Type 0 where
  invalid : Returned
  result : Status → Reason → Returned

pub record Check : Type 0 where
  pub name : String
  pub status : Status
  pub reason : Option Text
  pub duration_ms : ℕ

unfoldable pub normalize_reason : Reason → Option Text
unfolding is_safe_reason
normalize_reason undefined = none
normalize_reason no_text = some (codes "invalid-probe-reason")
normalize_reason (reason_text s) =
    if is_safe_reason s then some s else some (codes "invalid-probe-reason")

unfoldable pub normalize_result : String → Returned → ℕ → Check
unfolding normalize_reason
normalize_result name invalid duration = record {
  name = name;
  status = degraded;
  reason = some (codes "invalid-probe-result");
  duration_ms = duration;
}
normalize_result name (result status reason) duration = record {
  name = name;
  status = status;
  reason = normalize_reason reason;
  duration_ms = duration;
}

-- A probe that is no function, that throws, that is late, or that returns; with the two readings of
-- the clock.
pub data Probe : Type 0 where
  no_probe : Probe
  fails late : (started ended : ℕ) → Probe
  returns : (started ended : ℕ) → Returned → Probe

-- `runBoundedProbe`, for a known name and a timeout in its range.
unfoldable pub run_bounded_probe : String → Probe → Check
unfolding normalize_result
run_bounded_probe name no_probe = record {
  name = name;
  status = unsupported;
  reason = some (codes "probe-unavailable");
  duration_ms = 0;
}
run_bounded_probe name (fails started ended) = record {
  name = name;
  status = degraded;
  reason = some (codes "probe-failed");
  duration_ms = ended - started;
}
run_bounded_probe name (late started ended) =
    normalize_result name (result degraded (reason_text (codes "probe-timeout"))) (ended - started)
run_bounded_probe name (returns started ended r) = normalize_result name r (ended - started)

abbrev pub is_unsupported : Status → Bool
is_unsupported unsupported = true
is_unsupported _ = false

abbrev pub is_unhealthy : Status → Bool
is_unhealthy unhealthy = true
is_unhealthy _ = false

abbrev pub is_degraded : Status → Bool
is_degraded degraded = true
is_degraded _ = false

unfoldable pub overall_of : List Check → Status
overall_of checks =
    let supported = filter (λ c. not (is_unsupported c.status)) checks in
    if any (λ c. is_unhealthy c.status) supported
    then unhealthy
    else if any (λ c. is_degraded c.status) supported
    then degraded
    else if eqb (length supported) 0
    then degraded
    else healthy

pub record Snapshot : Type 0 where
  pub overall : Status
  pub checks : List Check

-- `snapshot`, without the identity of the adapter.
unfoldable pub snapshot : (String → Probe) → Snapshot
unfolding run_bounded_probe overall_of
snapshot probes =
    let checks = map (λ name. run_bounded_probe name (probes name)) health_checks in
    record { overall = overall_of checks; checks = checks }
