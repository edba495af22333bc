-- ===== src/Core/Sanitize.antt =====
-- src/core/sanitize.js: `sanitizeTelemetryEvent`, the last gate before an event is stored. An input is an object that
-- can be read; texts are lists of character codes. The catalog of causes, a JSON file,
-- is an argument.
pub mod Privacy
pub mod Keeping
use sidewisp_plugin.Prelude.{
  ℕ, zero, suc, ◌+◌, Bool, true, false, not, ◌&&◌, ◌||◌, ◌==◌, String, Option, none, some, List, [],
  ◌∷◌, ◌++◌, leb, ltb, eqb, if◌then◌else◌, is_some, any, all, map, length,
}
use sidewisp_plugin.Prelude.Codes.{Text, codes, is_digit, is_lower, is_upper, same_text}
use sidewisp_plugin.Core.ProhibitedText.{has_infix}
use sidewisp_plugin.Core.Preview.{Scan, sanitize_message_preview}
use sidewisp_plugin.Core.SafeText.{is_safe_text, has_secret, is_secret}

-- A safe integer
pub data Integer : Type 0 where
  pos negsuc : ℕ → Integer

-- A value of a property: a text, a Boolean, a safe integer, `undefined`, or anything else.
pub data Value : Type 0 where
  text : Text → Value
  flag : Bool → Value
  integer : Integer → Value
  undefined_value other_value : Value

-- The own properties of an object. What is no object, or is an array, has none.
abbrev pub Source : Type 0
Source = List (String × Value)

-- `SanitizationError`, by its code
pub data Refusal : Type 0 where
  unsafe invalid : (key : String) → Refusal
  invalid_runtime_kind invalid_source_kind invalid_event_type invalid_outcome invalid_sequence :
      Refusal

pub data Checked (A : Type 0) : Type 0 where
  refused : Refusal → Checked A
  passed : A → Checked A

abbrev pub and_then : {A B : Type 0} → Checked A → (A → Checked B) → Checked B
and_then (refused r) f = refused r
and_then (passed a) f = f a

abbrev pub map_checked : {A B : Type 0} → (A → B) → Checked A → Checked B
map_checked f (refused r) = refused r
map_checked f (passed a) = passed (f a)

-- `safeString`, of a text
unfoldable pub safe_text : String → Text → Checked Text
unfolding is_safe_text has_secret
safe_text key s = if not (is_safe_text s) || is_secret s then refused (unsafe key) else passed s

-- `safeString`, of any value
abbrev pub safe_string : String → Value → Checked Text
safe_string key (text s) = safe_text key s
safe_string key _ = refused (unsafe key)

abbrev pub text_of : Value → Option Text
text_of (text s) = some s
text_of _ = none

abbrev pub get : String → Source → Value
get key [] = undefined_value
get key ((k, v) ∷ source) = if k == key then v else get key source

-- One turn of the loop of `pick`: nothing for a key that is missing.
abbrev pub pick_value : String → Value → Checked (Option Value)
pick_value key undefined_value = passed none
pick_value key (text s) = map_checked (λ t. some (text t)) (safe_text key s)
pick_value key (flag b) = passed (some (flag b))
pick_value key (integer n) = passed (some (integer n))
pick_value key other_value = refused (invalid key)

abbrev pub put : String → Option Value → Source → Source
put key none output = output
put key (some v) output = (key, v) ∷ output

-- `pick`
unfoldable pub pick : Source → List String → Checked Source
unfolding safe_text
pick source [] = passed []
pick source (key ∷ keys) =
    let rest = pick source keys in
    and_then (pick_value key (get key source)) (λ v. map_checked (put key v) rest)

abbrev pub is_one_of : Value → List String → Bool
is_one_of (text s) words = any (λ w. same_text s (codes w)) words
is_one_of _ words = false

abbrev pub detail_keys : List String
detail_keys =
    "code" ∷ "reason" ∷ "status" ∷ "component" ∷ "operation" ∷ "capability" ∷ "attempt" ∷ "count"
    ∷ "durationMs" ∷ "exitCode" ∷ "httpStatus" ∷ "recoverable" ∷ "expected" ∷ []

abbrev pub correlation_keys : List String
correlation_keys = "sessionId" ∷ "turnId" ∷ "toolCallId" ∷ "messageId" ∷ "parentEventId" ∷ []

abbrev pub runtime_keys : List String
runtime_keys = "kind" ∷ "name" ∷ "version" ∷ "instanceId" ∷ []

abbrev pub source_keys : List String
source_keys = "kind" ∷ "adapterVersion" ∷ "cursor" ∷ []

abbrev pub runtime_kinds : List String
runtime_kinds = "openclaw" ∷ "hermes" ∷ "codex" ∷ "claude-code" ∷ "other" ∷ []

abbrev pub source_kinds : List String
source_kinds = "hook" ∷ "log" ∷ "state" ∷ "health" ∷ "collector" ∷ []

abbrev pub outcomes : List String
outcomes = "info" ∷ "success" ∷ "failure" ∷ "degraded" ∷ []

abbrev pub event_types : List String
event_types =
    "runtime.started" ∷ "runtime.stopped" ∷ "runtime.restarted" ∷ "runtime.crashed"
    ∷ "gateway.connected" ∷ "gateway.disconnected" ∷ "turn.started" ∷ "turn.progress"
    ∷ "turn.completed" ∷ "turn.failed" ∷ "turn.timeout" ∷ "turn.cancelled" ∷ "tool.started"
    ∷ "tool.completed" ∷ "tool.failed" ∷ "tool.timeout" ∷ "tool.cancelled" ∷ "message.received"
    ∷ "message.delivered" ∷ "message.rejected" ∷ "message.failed" ∷ "provider.auth_failed"
    ∷ "provider.rate_limited" ∷ "provider.unavailable" ∷ "queue.stuck" ∷ "queue.recovered"
    ∷ "context.exhausted" ∷ "config.invalid" ∷ "plugin.failed" ∷ "health.snapshot"
    ∷ "collector.started" ∷ "collector.stopped" ∷ "collector.degraded" ∷ []

abbrev pub signal_states : List String
signal_states = "failure" ∷ "recovered" ∷ "observing" ∷ []

pub record Input : Type 0 where
  pub runtime : Source
  pub source : Source
  pub correlation : Source
  pub details : Source
  pub type : Value
  pub outcome : Value
  pub event_id : Value
  pub installation_id : Value
  pub sequence : Value
  pub occurred_at : Value
  pub observed_at : Value
  pub message_preview : Value

pub record Event : Type 0 where
  pub event_id : Text
  pub installation_id : Text
  pub sequence : ℕ
  pub occurred_at : Text
  pub observed_at : Text
  pub message_preview : Option Text
  pub runtime : Source
  pub source : Source
  pub type : Text
  pub outcome : Text
  pub correlation : Source
  pub details : Source

abbrev pub guard : {A : Type 0} → Bool → Refusal → Checked A → Checked A
guard true r a = a
guard false r a = refused r

abbrev pub natural : Value → Checked ℕ
natural (integer (pos n)) = passed n
natural _ = refused invalid_sequence

abbrev pub is_known_cause : (catalog : Text → Bool) → Value → Bool
is_known_cause catalog (text s) = catalog s
is_known_cause catalog _ = false

abbrev pub kept_if : Bool → String → Value → Source
kept_if true key v = (key, v) ∷ []
kept_if false key v = []

-- The details that do not pass through `pick`
abbrev pub cause_details : (catalog : Text → Bool) → Source → Source
cause_details catalog details =
    let cause = get "causeCode" details in
    let state = get "signalState" details in
    kept_if (is_known_cause catalog cause) "causeCode" cause
    ++ kept_if (is_one_of state signal_states) "signalState" state

-- `readMessagePreview`, of the input
abbrev pub preview_of : Scan → Input → Option Text
preview_of scan i =
    sanitize_message_preview scan (text_of i.message_preview) (text_of i.type)
      (text_of (get "status" i.details)) (text_of (get "operation" i.details))

-- The event, once the vocabularies have been tested.
abbrev pub assemble :
    Scan → (catalog : Text → Bool) → Input → (runtime source : Source) → Checked Event
assemble scan catalog i runtime source = and_then (safe_string "event-id" i.event_id) (λ event_id.
    and_then (safe_string "installation-id" i.installation_id) (λ installation_id.
      and_then (natural i.sequence) (λ sequence.
        and_then (safe_string "occurred-at" i.occurred_at) (λ occurred_at.
          and_then (safe_string "observed-at" i.observed_at) (λ observed_at.
            and_then (safe_string "type" i.type) (λ type.
              and_then (safe_string "outcome" i.outcome) (λ outcome.
                and_then (pick i.correlation correlation_keys) (λ correlation.
                  and_then (pick i.details detail_keys) (λ details. passed (record {
                    event_id = event_id;
                    installation_id = installation_id;
                    sequence = sequence;
                    occurred_at = occurred_at;
                    observed_at = observed_at;
                    message_preview = preview_of scan i;
                    runtime = runtime;
                    source = source;
                    type = type;
                    outcome = outcome;
                    correlation = correlation;
                    details = details ++ cause_details catalog i.details;
                  }))))))))))

-- `sanitizeTelemetryEvent`
unfoldable pub sanitize : Scan → (catalog : Text → Bool) → Input → Checked Event
unfolding pick safe_text sanitize_message_preview
sanitize scan catalog i = and_then (pick i.runtime runtime_keys) (λ runtime.
    and_then (pick i.source source_keys) (λ source.
      guard (is_one_of (get "kind" runtime) runtime_kinds) invalid_runtime_kind (
        guard (is_one_of (get "kind" source) source_kinds) invalid_source_kind (
          guard (is_one_of i.type event_types) invalid_event_type (
            guard (is_one_of i.outcome outcomes) invalid_outcome
              (assemble scan catalog i runtime source))))))
