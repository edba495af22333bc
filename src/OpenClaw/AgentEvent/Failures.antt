-- ===== src/OpenClaw/AgentEvent/Failures.antt =====
-- src/adapters/openclaw/hooks.js: what `openClawAgentEventInput` reports of a tool that has ended.
use sidewisp_plugin.Prelude.{
  Bool, true, false, not, ◌&&◌, ◌||◌, ◌≡◌, ◌⊎◌, inl, inr, refl, Option, none, some, if◌then◌else◌,
  arith,
}
use sidewisp_plugin.Prelude.Codes.{Text, codes, same_text}
use sidewisp_plugin.OpenClaw.HostEvent.{
  Integer, Data, Outcome, success, failure, timeout, cancelled, Tool, is_word,
}
use sidewisp_plugin.OpenClaw.ToolReport.{
  explicit_of, is_failure_code, exit_code_of, classify_failure, cancellation, tool_of, has_failed,
  tool_outcome, tool_result,
}

either_code :
    (b : Bool) (x y : Text)
    → is_failure_code x ≡ true
    → is_failure_code y ≡ true
    → is_failure_code (if b then x else y) ≡ true
either_code true x y h k = h
either_code false x y h k = k

guarded_code :
    (x y : Text)
    → is_failure_code y ≡ true
    → is_failure_code (if is_failure_code x then x else y) ≡ true
guarded_code x y h = by_test (is_failure_code x) refl
  where
    by_test : (b : Bool) → is_failure_code x ≡ b → is_failure_code (if b then x else y) ≡ true
    by_test true e = e
    by_test false e = h

classify_failure-known :
    (d : Data) (exit_code : Option Integer) → is_failure_code (classify_failure d exit_code) ≡ true
unfolding classify_failure same_text
classify_failure-known d exit_code = guarded_code (explicit_of d.code) _ (ground arith)

-- A tool that has not failed carries neither a code nor whether it can recover; one that has failed or run out of
-- time carries one of the known codes, and can recover unless it lacks the authority.
abbrev pub IsQuiet : Tool → Type 0
IsQuiet t =
    ((t.outcome ≡ success) ⊎ (t.outcome ≡ cancelled)) × ((t.code ≡ none) × (t.recoverable ≡ none))

abbrev pub IsFailed : Tool → Type 0
IsFailed t =
    ((t.outcome ≡ failure) ⊎ (t.outcome ≡ timeout))
    × ((code : Text) × ((t.code ≡ some code)
          × ((is_failure_code code ≡ true)
              × (t.recoverable
                  ≡ some (
                      not (
                        same_text code (codes "AUTH_FAILED")
                        || same_text code (codes "PERMISSION_DENIED")))))))

tool_of-IsFailed :
    (d : Data) (o : Outcome) → (o ≡ failure) ⊎ (o ≡ timeout) → IsFailed (tool_of d o true)
unfolding tool_of
tool_of-IsFailed d o h = (
  h,
  (classify_failure d (exit_code_of d), (refl, (classify_failure-known d (exit_code_of d), refl))),
)

tool_of-IsQuiet :
    (d : Data) (o : Outcome) → (o ≡ success) ⊎ (o ≡ cancelled) → IsQuiet (tool_of d o false)
unfolding tool_of
tool_of-IsQuiet d o h = (h, (refl, refl))

-- A status of `timeout` counts as a failure.
timeout-has_failed : (d : Data) → is_word d.status (codes "timeout") ≡ true → has_failed d ≡ true
timeout-has_failed d h = ground (arith, h)

-- The report of a tool that has ended has a failure code just where its outcome is a failure or a timeout, and
-- the code is one of the nine known ones.
pub tool_result-IsReport : (d : Data) → IsQuiet (tool_result d) ⊎ IsFailed (tool_result d)
unfolding tool_result tool_outcome
tool_result-IsReport d =
    by_tests (cancellation d (exit_code_of d)) (is_word d.status (codes "timeout")) (has_failed d)
      (timeout-has_failed d)
  where
    outcome_of : Bool → Bool → Bool → Outcome
    outcome_of a t f =
        if a then cancelled else if t then timeout else if f then failure else success

    by_tests :
        (a t f : Bool)
        → (t ≡ true → f ≡ true)
        → IsQuiet (tool_of d (outcome_of a t f) (f && not a))
          ⊎ IsFailed (tool_of d (outcome_of a t f) (f && not a))
    by_tests true t true h = inl (tool_of-IsQuiet d cancelled (inr refl))
    by_tests true t false h = inl (tool_of-IsQuiet d cancelled (inr refl))
    by_tests false true true h = inr (tool_of-IsFailed d timeout (inr refl))
    by_tests false true false h = ground (arith, h refl)
    by_tests false false true h = inr (tool_of-IsFailed d failure (inl refl))
    by_tests false false false h = inl (tool_of-IsQuiet d success (inl refl))
