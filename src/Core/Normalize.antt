-- ===== src/Core/Normalize.antt =====
-- src/core/normalize.js: `normalizeRuntimeEvent`, from the input of an adapter to a sanitized event or a local
-- diagnostic.
pub mod Reports
pub mod Facts
use sidewisp_plugin.Prelude.{
  ℕ, zero, suc, Bool, true, false, not, ◌&&◌, ◌||◌, ◌==◌, String, Option, none, some, List, [], ◌∷◌,
  ◌++◌, eqb, if◌then◌else◌, is_some, any, filter,
}
use sidewisp_plugin.Prelude.Codes.{Text, codes, same_text}
use sidewisp_plugin.Core.Sanitize.{
  Integer, pos, negsuc, Value, text, flag, integer, undefined_value, other_value, Source, Checked,
  refused, passed, Event, Input, sanitize, get, text_of,
}
use sidewisp_plugin.Core.Preview.{Scan, sanitize_message_preview}
use sidewisp_plugin.Core.Causes.{Failure, known_cause, classify_runtime_cause}
use sidewisp_plugin.Core.RuntimeMappings.{
  Runtime, runtime_name, Semantic, Mapped, mapped, runtime_start, runtime_stop, runtime_crash,
  gateway_up, gateway_down, turn_start, turn_end, turn_progress, tool_start, tool_end,
  message_received, delivery_end, provider_error, config_invalid, queue_stuck, context_exhausted,
  unknown_kind, inherited, meaning,
}

-- The input of an adapter. `kind`, `outcome` and the status are none where they are no text and no safe
-- integer, `expected` where it is
-- missing or null; a preview that is null counts as undefined.
pub record RuntimeInput : Type 0 where
  pub kind : Option Text
  pub outcome : Option Text
  pub expected : Option Bool
  pub http_status : Option Integer
  pub signal_state : Option Text
  pub cause_code : Option Text
  pub code : Value
  pub component : Value
  pub operation : Value
  pub status : Value
  pub exit_code : Value
  pub duration_ms : Value
  pub recoverable : Value
  pub correlation : Source
  pub message_preview : Value

pub record Envelope : Type 0 where
  pub runtime : Source
  pub source : Source
  pub event_id : Value
  pub installation_id : Value
  pub sequence : Value
  pub occurred_at : Value
  pub observed_at : Value

pub record Fact : Type 0 where
  pub type : String
  pub outcome : String
  pub details : Source

abbrev pub fact : String → String → Source → Fact
fact type outcome details = record { type = type; outcome = outcome; details = details }

abbrev pub is_word : Option Text → String → Bool
is_word none word = false
is_word (some s) word = same_text s (codes word)

abbrev pub or_false : Option Bool → Bool
or_false none = false
or_false (some b) = b

abbrev pub is_expected : RuntimeInput → Bool
is_expected i = or_false i.expected

abbrev pub cancelled_details : Source
cancelled_details = ("reason", text (codes "user-cancelled")) ∷ ("expected", flag true) ∷ []

abbrev pub timeout_details : Bool → Source
timeout_details expected =
    ("reason", text (if expected then codes "expected-timeout" else codes "timeout"))
    ∷ ("expected", flag expected)
    ∷ []

-- The end of a turn or of a tool, by the prefix of its type
abbrev pub ended : (cancelled timeout completed failed : String) → RuntimeInput → Fact
ended cancelled timeout completed failed i =
    if is_word i.outcome "cancelled"
    then fact cancelled "info" cancelled_details
    else if is_word i.outcome "timeout"
    then fact timeout (if is_expected i then "info" else "failure")
        (timeout_details (is_expected i))
    else if is_word i.outcome "success"
    then fact completed "success" []
    else fact failed "failure" []

abbrev pub is_status : ℕ → Option Integer → Bool
is_status n (some (pos m)) = eqb m n
is_status n _ = false

abbrev pub provider_fact : Option Integer → Fact
provider_fact status =
    if is_status 401 status || is_status 403 status
    then fact "provider.auth_failed" "failure"
        (elim status [ none ↦ [] | some n ↦ ("httpStatus", integer n) ∷ [] ])
    else if is_status 429 status
    then fact "provider.rate_limited" "degraded"
        (("httpStatus", integer (pos 429)) ∷ ("recoverable", flag true) ∷ [])
    else fact "provider.unavailable" "failure" (("recoverable", flag true) ∷ [])

-- `variableFact` and `FIXED`
unfoldable pub fact_of : Semantic → RuntimeInput → Fact
fact_of runtime_start i = fact "runtime.started" "success" []
fact_of runtime_stop i = fact "runtime.stopped" "success" []
fact_of runtime_crash i = fact "runtime.crashed" "failure" []
fact_of gateway_up i = fact "gateway.connected" "success" []
fact_of gateway_down i = fact "gateway.disconnected" "failure" []
fact_of turn_start i = fact "turn.started" "info" []
fact_of turn_end i = ended "turn.cancelled" "turn.timeout" "turn.completed" "turn.failed" i
fact_of turn_progress i = fact "turn.progress" "info" []
fact_of tool_start i = fact "tool.started" "info" []
fact_of tool_end i = ended "tool.cancelled" "tool.timeout" "tool.completed" "tool.failed" i
fact_of message_received i = fact "message.received" "info" []
fact_of delivery_end i =
    if is_word i.outcome "policy-rejected"
    then fact "message.rejected" "info"
        (("reason", text (codes "policy-rejection")) ∷ ("expected", flag true) ∷ [])
    else if is_word i.outcome "success"
    then fact "message.delivered" "success" []
    else fact "message.failed" "failure" []
fact_of provider_error i = provider_fact i.http_status
fact_of config_invalid i = fact "config.invalid" "failure" []
fact_of queue_stuck i = fact "queue.stuck" "failure" []
fact_of context_exhausted i = fact "context.exhausted" "failure" []

abbrev pub failure_of : RuntimeInput → Failure
failure_of i = record {
  expected = is_expected i;
  outcome = i.outcome;
  cause_code = i.cause_code;
  code = text_of i.code;
  kind = i.kind;
  operation = text_of i.operation;
  http_status = i.http_status;
}

-- `recovery`
abbrev pub recovery : (catalog : Text → Bool) → Fact → RuntimeInput → Option Text
recovery catalog f i =
    if f.outcome == "success"
      && (is_word i.signal_state "recovered" || is_word i.signal_state "observing")
    then known_cause catalog i.cause_code
    else none

abbrev pub failure_cause : (catalog : Text → Bool) → Fact → RuntimeInput → Option Text
failure_cause catalog f i =
    if (f.outcome == "failure" || f.outcome == "degraded") && not (is_expected i)
    then classify_runtime_cause catalog (failure_of i)
    else none

abbrev pub value_of : Option Text → Value
value_of none = undefined_value
value_of (some s) = text s

abbrev pub status_value : Option Integer → Value
status_value none = undefined_value
status_value (some n) = integer n

-- `causeCode` and `signalState`
abbrev pub signal_details : (recovery failure state : Option Text) → Source
signal_details (some cause) failure state =
    ("causeCode", text cause) ∷ ("signalState", value_of state) ∷ []
signal_details none (some cause) state =
    ("causeCode", text cause) ∷ ("signalState", text (codes "failure")) ∷ []
signal_details none none state = []

abbrev pub expected_value : Option Bool → Source → Value
expected_value none details = get "expected" details
expected_value (some b) details = flag b

-- The properties that the input sets, each of them even where it is missing
abbrev pub input_details : Source → RuntimeInput → Source
input_details details i =
    ("code", i.code)
    ∷ ("component", i.component)
    ∷ ("operation", i.operation)
    ∷ ("status", i.status)
    ∷ ("exitCode", i.exit_code)
    ∷ ("httpStatus", status_value i.http_status)
    ∷ ("durationMs", i.duration_ms)
    ∷ ("recoverable", i.recoverable)
    ∷ ("expected", expected_value i.expected details)
    ∷ []

-- `{ ...envelope.runtime, kind: runtimeKind }`
abbrev pub with_kind : Runtime → Source → Source
with_kind runtime source =
    ("kind", text (codes (runtime_name runtime))) ∷ filter (λ p. not (p.0 == "kind")) source

-- The details: a property of the input hides one of the fact, and the other way round never.
abbrev pub details_of : (catalog : Text → Bool) → Fact → RuntimeInput → Source
details_of catalog f i =
    input_details f.details i
    ++ signal_details (recovery catalog f i) (failure_cause catalog f i) i.signal_state
    ++ f.details

-- `eventReasonPreview`
abbrev pub event_reason_preview : (type : String) → RuntimeInput → Option Text
event_reason_preview type i =
    if type == "turn.cancelled" && is_word i.outcome "cancelled"
    then some (codes "Причина события: выполнение остановлено.")
    else if type == "turn.timeout" && is_word i.outcome "timeout"
    then some (codes "Причина события: превышено время выполнения.")
    else if type == "turn.failed" && is_word i.outcome "failure"
    then some (codes "Причина события: ошибка выполнения.")
    else none

-- `input.messagePreview ?? eventReasonPreview(type, input)`
abbrev pub preview_source : (type : String) → RuntimeInput → Value → Option Text
preview_source type i undefined_value = event_reason_preview type i
preview_source type i v = text_of v

abbrev pub normalized_preview : Scan → (type : String) → RuntimeInput → Option Text
normalized_preview scan type i =
    sanitize_message_preview scan (preview_source type i i.message_preview) (some (codes type))
      (text_of i.status) (text_of i.operation)

abbrev pub telemetry_input :
    Scan → (catalog : Text → Bool) → Runtime → Fact → RuntimeInput → Envelope → Input
telemetry_input scan catalog runtime f i e = record {
  runtime = with_kind runtime e.runtime;
  source = e.source;
  correlation = i.correlation;
  details = details_of catalog f i;
  type = text (codes f.type);
  outcome = text (codes f.outcome);
  event_id = e.event_id;
  installation_id = e.installation_id;
  sequence = e.sequence;
  occurred_at = e.occurred_at;
  observed_at = e.observed_at;
  message_preview = value_of (normalized_preview scan f.type i);
}

-- The codes of the local diagnostics
pub data Diagnostic : Type 0 where
  unsupported_runtime_event unmapped_runtime_event normalization_failed : Diagnostic

pub data Normalized : Type 0 where
  emitted : Event → Normalized
  diagnosed : Diagnostic → Normalized

abbrev pub or_failed : Checked Event → Normalized
or_failed (refused r) = diagnosed normalization_failed
or_failed (passed e) = emitted e

abbrev pub normalize_mapped :
    Scan → (catalog : Text → Bool) → Runtime → RuntimeInput → Envelope → Mapped → Normalized
normalize_mapped scan catalog runtime i e unknown_kind = diagnosed unsupported_runtime_event
normalize_mapped scan catalog runtime i e inherited = diagnosed unmapped_runtime_event
normalize_mapped scan catalog runtime i e (meaning s) =
    or_failed (sanitize scan catalog (telemetry_input scan catalog runtime (fact_of s i) i e))

-- `normalizeRuntimeEvent`
unfoldable pub normalize :
    Scan → (catalog : Text → Bool) → Runtime → RuntimeInput → Envelope → Normalized
unfolding sanitize fact_of classify_runtime_cause sanitize_message_preview
normalize scan catalog runtime i e =
    normalize_mapped scan catalog runtime i e (mapped runtime i.kind)
