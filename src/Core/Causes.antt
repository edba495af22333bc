-- ===== src/Core/Causes.antt =====
-- src/core/causes.js: `classifyRuntimeCause`, the cause that a failure is reported with. The catalog of causes, a
-- JSON file, is an argument.
pub mod Known
use sidewisp_plugin.Prelude.{
  String, ℕ, zero, suc, ◌+◌, ◌-◌, Bool, true, false, not, ◌&&◌, ◌||◌, Option, none, some, List, [],
  ◌∷◌, ◌++◌, leb, ltb, eqb, if◌then◌else◌, is_some, map,
}
use sidewisp_plugin.Prelude.Codes.{slice_units, Text, codes, same_text, lower_code, upper_code}
use sidewisp_plugin.Core.ProhibitedText.{has_infix}
use sidewisp_plugin.Core.Sanitize.{Integer, pos, negsuc}

-- What is read of the input. A property that is no text, or of the status no safe integer, is none; `expected` is
-- that it is `true`.
pub record Failure : Type 0 where
  pub expected : Bool
  pub outcome : Option Text
  pub cause_code : Option Text
  pub code : Option Text
  pub kind : Option Text
  pub operation : Option Text
  pub http_status : Option Integer

abbrev pub is_word : Option Text → Text → Bool
is_word none word = false
is_word (some s) word = same_text s word

-- `knownCause`
abbrev pub known_cause : (catalog : Text → Bool) → Option Text → Option Text
known_cause catalog none = none
known_cause catalog (some s) = if catalog s then some s else none

-- `code.slice(0, 128).toUpperCase().replaceAll("-", "_")`
unfoldable pub upper : Text → Text
upper [] = []
upper (c ∷ s) = map (λ d. if eqb d b'-' then b'_' else d) (upper_code c) ++ upper s

abbrev pub aliases : List (String × String)
aliases =
    ("ENOSPC", "disk_full")
    ∷ ("EDQUOT", "disk_full")
    ∷ ("EROFS", "read_only_filesystem")
    ∷ ("EMFILE", "file_descriptor_exhaustion")
    ∷ ("ENFILE", "file_descriptor_exhaustion")
    ∷ ("EADDRINUSE", "port_conflict")
    ∷ ("ENOMEM", "memory_pressure")
    ∷ ("ENOTFOUND", "dns_failure")
    ∷ ("EAI_AGAIN", "dns_failure")
    ∷ ("ECONNREFUSED", "connection_refused")
    ∷ ("ECONNRESET", "connection_reset")
    ∷ ("ETIMEDOUT", "network_timeout")
    ∷ ("CERT_HAS_EXPIRED", "tls_failure")
    ∷ ("ERR_TLS_CERT_ALTNAME_INVALID", "tls_failure")
    ∷ ("UNABLE_TO_VERIFY_LEAF_SIGNATURE", "tls_failure")
    ∷ ("DEPTH_ZERO_SELF_SIGNED_CERT", "tls_failure")
    ∷ ("ERR_WORKER_OUT_OF_MEMORY", "node_heap_oom")
    ∷ ("ERR_MODULE_NOT_FOUND", "dependency_missing")
    ∷ ("MODULE_NOT_FOUND", "dependency_missing")
    ∷ ("INSUFFICIENT_QUOTA", "provider_quota_exhausted")
    ∷ ("BILLING_HARD_LIMIT_REACHED", "provider_quota_exhausted")
    ∷ ("BILLING_NOT_ACTIVE", "provider_billing_disabled")
    ∷ ("INVALID_API_KEY", "provider_auth_failed")
    ∷ ("AUTHENTICATION_ERROR", "provider_auth_failed")
    ∷ ("CONTEXT_LENGTH_EXCEEDED", "model_context_overflow")
    ∷ ("MODEL_NOT_FOUND", "model_not_found")
    ∷ ("MODEL_NOT_SUPPORTED", "model_access_denied")
    ∷ ("OVERLOADED_ERROR", "provider_overloaded")
    ∷ ("RATE_LIMIT_EXCEEDED", "provider_rate_limited")
    ∷ ("RESOURCE_EXHAUSTED", "provider_quota_exhausted")
    ∷ ("SQLITE_CORRUPT", "filesystem_corrupt")
    ∷ ("SQLITE_READONLY", "read_only_filesystem")
    ∷ ("SQLITE_FULL", "disk_full")
    ∷ []

abbrev pub alias_in : List (String × String) → Text → Option Text
alias_in [] code = none
alias_in ((alias, cause) ∷ rest) code =
    if same_text code (codes alias) then some (codes cause) else alias_in rest code

abbrev pub or_cause : Option Text → Option Text → Option Text
or_cause none b = b
or_cause (some a) b = some a

abbrev pub when : Bool → String → Option Text
when false cause = none
when true cause = some (codes cause)

abbrev pub is_status : ℕ → Option Integer → Bool
is_status n (some (pos m)) = eqb m n
is_status n _ = false

abbrev pub is_server_error : Option Integer → Bool
is_server_error (some (pos n)) = leb 500 n
is_server_error _ = false

abbrev pub lowered : Option Text → Text
lowered none = []
lowered (some s) = map lower_code s

abbrev pub code_of : Option Text → Text
code_of none = []
code_of (some s) = upper (slice_units 128 s)

-- The causes of a provider's error
abbrev pub provider_cause : Failure → Option Text
provider_cause f =
    if is_word f.kind (codes "provider_error") || is_word f.kind (codes "llm_provider_error")
    then or_cause (when (is_status 401 f.http_status) "provider_auth_failed") (
        or_cause (when (is_status 403 f.http_status) "provider_permission_denied") (
          or_cause (when (is_status 429 f.http_status) "provider_rate_limited")
            (when (is_server_error f.http_status) "provider_unavailable")))
    else none

-- The causes that the operation decides
abbrev pub operation_cause : (operation code : Text) → Option Text
operation_cause operation code =
    or_cause
      (if has_infix (codes "memory") operation
        then or_cause (when (same_text code (codes "UNAVAILABLE")) "memory_search_unavailable")
            (when (same_text code (codes "AUTH_FAILED")) "memory_embedding_auth_failed")
        else none)
      (if has_infix (codes "browser") operation
        then or_cause
            (when (same_text code (codes "TARGET_CLOSED") || same_text code (codes "STALE_ELEMENT"))
              "browser_target_stale")
            (or_cause (when (same_text code (codes "CDP_UNAVAILABLE")) "browser_cdp_unreachable")
              (when (same_text code (codes "TIMEOUT")) "browser_navigation_timeout"))
        else none)

abbrev pub policy_cause : Text → Option Text
policy_cause code =
    or_cause (when (same_text code (codes "APPROVAL_REQUIRED")) "tool_approval_required") (
      or_cause (when (same_text code (codes "APPROVAL_EXPIRED")) "tool_approval_expired")
        (when (same_text code (codes "POLICY_DENIED")) "tool_policy_denied"))

-- `classifyRuntimeCause`
unfoldable pub classify_runtime_cause : (catalog : Text → Bool) → Failure → Option Text
unfolding upper
classify_runtime_cause catalog f =
    let code = code_of f.code in
    if f.expected
      || is_word f.outcome (codes "cancelled")
      || is_word f.outcome (codes "policy-rejected")
    then none
    else or_cause (known_cause catalog f.cause_code) (
        or_cause (known_cause catalog (some (map lower_code code))) (
          or_cause (alias_in aliases code) (
            or_cause (provider_cause f)
              (or_cause (operation_cause (lowered f.operation) code) (policy_cause code)))))
