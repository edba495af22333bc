-- ===== src/OpenClaw/ToolReport.antt =====
-- src/adapters/openclaw/hooks.js: `classifyFailure`, `cancellation` and `toolDetails`, which report a tool that has
-- ended.
use sidewisp_plugin.Prelude.{
  ℕ, Bool, true, false, not, ◌&&◌, ◌||◌, Option, none, some, List, [], ◌∷◌, ◌++◌, leb, eqb,
  if◌then◌else◌, any, all, map, length,
}
use sidewisp_plugin.Prelude.Codes.{upper_code, Text, codes, is_digit, is_lower, is_upper, same_text}
use sidewisp_plugin.OpenClaw.HostEvent.{
  Integer, Data, Outcome, Tool, is_word, is_one_of, or_integer, lowered, pos, negsuc, success,
  failure, timeout, cancelled,
}

-- `code.toUpperCase().replaceAll("-", "_")`
unfoldable pub explicit_code : Text → Text
explicit_code [] = []
explicit_code (c ∷ s) = map (λ d. if eqb d b'-' then b'_' else d) (upper_code c) ++ explicit_code s

-- `FAILURE_CODES`
abbrev pub failure_codes : List Text
failure_codes =
    codes "AUTH_FAILED"
    ∷ codes "KILLED"
    ∷ codes "NONZERO_EXIT"
    ∷ codes "NOT_FOUND"
    ∷ codes "PERMISSION_DENIED"
    ∷ codes "RATE_LIMITED"
    ∷ codes "TIMEOUT"
    ∷ codes "UNKNOWN"
    ∷ codes "VALIDATION_FAILED"
    ∷ []

abbrev pub is_integer : ℕ → Option Integer → Bool
is_integer n (some (pos m)) = eqb m n
is_integer n _ = false

-- `Number.isSafeInteger(exitCode) && exitCode !== 0`
abbrev pub is_nonzero : Option Integer → Bool
is_nonzero none = false
is_nonzero (some (pos n)) = not (eqb n 0)
is_nonzero (some (negsuc n)) = true

abbrev pub http_status_of : Data → Option Integer
http_status_of d =
    or_integer d.http_status
      (or_integer d.status_code (or_integer d.result_http_status d.result_status_code))

abbrev pub exit_code_of : Data → Option Integer
exit_code_of d = or_integer d.exit_code d.result_exit_code

abbrev pub is_failure_code : Text → Bool
is_failure_code s = any (same_text s) failure_codes

abbrev pub explicit_of : Option Text → Text
explicit_of none = []
explicit_of (some s) = explicit_code s

-- `classifyFailure`
unfoldable pub classify_failure : Data → Option Integer → Text
unfolding explicit_code
classify_failure d exit_code =
    let status = some (lowered d.status) in
    let http = http_status_of d in
    let explicit = explicit_of d.code in
    if is_failure_code explicit
    then explicit
    else if is_integer 401 http || is_integer 403 http
    then codes "AUTH_FAILED"
    else if is_integer 429 http
    then codes "RATE_LIMITED"
    else if is_word status (codes "timeout") || d.timed_out
    then codes "TIMEOUT"
    else if is_one_of status (codes "killed" ∷ codes "aborted" ∷ codes "cancelled" ∷ [])
    then codes "KILLED"
    else if is_one_of status (codes "validation_failed" ∷ codes "invalid" ∷ codes "rejected" ∷ [])
    then codes "VALIDATION_FAILED"
    else if is_one_of status (codes "not_found" ∷ codes "missing" ∷ [])
    then codes "NOT_FOUND"
    else if is_one_of status (codes "permission_denied" ∷ codes "forbidden" ∷ [])
    then codes "PERMISSION_DENIED"
    else if is_nonzero exit_code
    then codes "NONZERO_EXIT"
    else codes "UNKNOWN"

-- `cancellation`
unfoldable pub cancellation : Data → Option Integer → Bool
cancellation d exit_code =
    let status = some (lowered d.status) in
    d.cancelled
    || d.canceled
    || is_one_of status
        (codes "killed" ∷ codes "aborted" ∷ codes "cancelled" ∷ codes "canceled" ∷ [])
    || is_integer 130 exit_code
    || is_integer 143 exit_code

abbrev pub is_word_code : ℕ → Bool
is_word_code c = is_upper c || is_lower c || is_digit c

-- `[A-Za-z0-9._:/+-]`
abbrev pub is_operation_code : ℕ → Bool
is_operation_code c =
    is_word_code c
    || eqb c b'.'
    || eqb c b'_'
    || eqb c b':'
    || eqb c b'/'
    || eqb c b'+'
    || eqb c b'-'

unfoldable pub is_operation : Text → Bool
is_operation [] = false
is_operation (c ∷ s) = is_word_code c && leb (length s) 127 && all is_operation_code s

abbrev pub operation_or : Option Text → Option Text → Option Text
operation_or none rest = rest
operation_or (some s) rest = if is_operation s then some s else rest

-- `safeOperation`
unfoldable pub safe_operation : List (Option Text) → Option Text
unfolding is_operation
safe_operation [] = none
safe_operation (s ∷ values) = operation_or s (safe_operation values)

abbrev pub or_unknown : Option Text → Text
or_unknown none = codes "unknown"
or_unknown (some s) = s

-- `toolDetails`, with the outcome and the duration
unfoldable pub tool_of : Data → Outcome → (failed : Bool) → Tool
unfolding safe_operation classify_failure
tool_of d outcome failed =
    let exit_code = exit_code_of d in
    let code = classify_failure d exit_code in
    record {
      operation =
          or_unknown
            (safe_operation (d.name ∷ d.tool_name ∷ d.result_name ∷ d.result_tool_name ∷ []));
      outcome = outcome;
      status = safe_operation (d.status ∷ d.result_status ∷ []);
      exit_code = exit_code;
      http_status = http_status_of d;
      code = if failed then some code else none;
      recoverable =
          if failed
          then some (
              not (
                same_text code (codes "AUTH_FAILED") || same_text code (codes "PERMISSION_DENIED")))
          else none;
      duration_ms = d.duration_ms;
    }

-- Whether a tool has failed, and its outcome
abbrev pub has_failed : Data → Bool
has_failed d =
    d.is_error
    || is_one_of d.status (codes "failed" ∷ codes "error" ∷ codes "timeout" ∷ codes "killed" ∷ [])
    || is_nonzero (exit_code_of d)

unfoldable pub tool_outcome : Data → Outcome
unfolding cancellation
tool_outcome d =
    if cancellation d (exit_code_of d)
    then cancelled
    else if is_word d.status (codes "timeout")
    then timeout
    else if has_failed d
    then failure
    else success

-- The end of a tool
unfoldable pub tool_result : Data → Tool
unfolding tool_of tool_outcome cancellation
tool_result d = tool_of d (tool_outcome d) (has_failed d && not (cancellation d (exit_code_of d)))
