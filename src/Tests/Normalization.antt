-- ===== src/Tests/Normalization.antt =====
-- Runs of the normalizer and the sanitizer on concrete inputs.
use sidewisp_plugin.Prelude.{Option, Bool, false, ◌≡◌, refl, String, none, some, [], ◌∷◌}
use sidewisp_plugin.Prelude.Codes.{Text, codes, same_text}
use sidewisp_plugin.Core.Sanitize.{
  Value, integer, undefined_value, pos, refused, unsafe, get, Event, Input, sanitize,
}
use sidewisp_plugin.Core.Causes.{classify_runtime_cause}
use sidewisp_plugin.Core.Sanitize.Privacy.{IsClean, sanitize-IsClean}
use sidewisp_plugin.Core.Preview.{Scan, sanitize_message_preview, allows_preview, shorten}
use sidewisp_plugin.Core.Sanitize.{passed, undefined_value}
use sidewisp_plugin.Core.Normalize.{
  normalized_preview, RuntimeInput, Envelope, fact_of, telemetry_input, details_of, diagnosed,
  unsupported_runtime_event, normalize,
}
use sidewisp_plugin.Core.RuntimeMappings.{provider_error, openclaw, codex}
use sidewisp_plugin.Core.Normalize.Facts.{IsFaithful, normalize-IsFaithful}

abbrev word : String → Value
word s = Value.text (codes s)

abbrev no_cause : Text → Bool
no_cause s = false

-- A scan that finds nothing
abbrev lenient : Scan
lenient = record { normalize = λ s. s; is_unsafe = λ s. false }

-- A provider's refusal for its rate, with a component
abbrev limited : RuntimeInput
limited = record {
  kind = some (codes "provider_error");
  outcome = none;
  expected = none;
  http_status = some (pos 429);
  signal_state = none;
  cause_code = none;
  code = undefined_value;
  component = word "model";
  operation = undefined_value;
  status = undefined_value;
  exit_code = undefined_value;
  duration_ms = undefined_value;
  recoverable = undefined_value;
  correlation = ("sessionId", word "s1") ∷ ("prompt", word "hello") ∷ [];
  message_preview = word "Too many requests";
}

abbrev envelope : Envelope
envelope = record {
  runtime = ("version", word "1.2") ∷ [];
  source = ("kind", word "hook") ∷ ("adapterVersion", word "0.2.90") ∷ [];
  event_id = word "e1";
  installation_id = word "inst-a";
  sequence = integer (pos 7);
  occurred_at = word "2026-01-01T00:00:00.000Z";
  observed_at = word "2026-01-01T00:00:00.000Z";
}

abbrev limited_input : Input
limited_input =
    telemetry_input lenient no_cause openclaw (fact_of provider_error limited) limited envelope

-- The event of the refusal: the prompt is gone.
abbrev limited_event : Event
limited_event = record {
  event_id = codes "e1";
  installation_id = codes "inst-a";
  sequence = 7;
  occurred_at = codes "2026-01-01T00:00:00.000Z";
  observed_at = codes "2026-01-01T00:00:00.000Z";
  runtime = ("kind", word "openclaw") ∷ ("version", word "1.2") ∷ [];
  source = ("kind", word "hook") ∷ ("adapterVersion", word "0.2.90") ∷ [];
  message_preview = none;
  type = codes "provider.rate_limited";
  outcome = codes "degraded";
  correlation = ("sessionId", word "s1") ∷ [];
  details =
      ("component", word "model")
      ∷ ("httpStatus", integer (pos 429))
      ∷ ("signalState", word "failure")
      ∷ [];
}

normalize-IsFaithful_example : IsFaithful lenient no_cause openclaw limited limited_event
unfolding normalize same_text
normalize-IsFaithful_example =
    normalize-IsFaithful lenient no_cause openclaw limited envelope limited_event refl

-- The fact says that the refusal can be recovered from, and the event does not.
limited_forgets :
    get "recoverable" (details_of no_cause (fact_of provider_error limited) limited)
    ≡ undefined_value
unfolding fact_of
limited_forgets = refl

-- A text that names a credential is refused.
token_refused :
    sanitize lenient no_cause (record limited_input { event_id = word "api-key-1" })
    ≡ refused (unsafe "event-id")
unfolding sanitize fact_of same_text
token_refused = refl

-- Codex has no gateway.
codex_has_no_gateway :
    normalize lenient no_cause codex (record limited { kind = some (codes "gateway_up") }) envelope
    ≡ diagnosed unsupported_runtime_event
unfolding normalize same_text
codex_has_no_gateway = refl

-- A turn that has failed says so, if nothing else; a refusal for the rate has no preview.
abbrev failed_turn : Option Text
failed_turn =
    normalized_preview lenient "turn.failed"
      (record limited { outcome = some (codes "failure"); message_preview = undefined_value })

failed_turn_says_so : failed_turn ≡ some (codes "Причина события: ошибка выполнения.")
unfolding sanitize_message_preview allows_preview shorten same_text
failed_turn_says_so = refl

abbrev previewed_input : Input
previewed_input = record limited_input {
  type = word "turn.failed";
  message_preview = word "Stopped";
}

abbrev previewed_event : Event
previewed_event = record limited_event {
  type = codes "turn.failed";
  message_preview = some (codes "Stopped");
}

sanitize-previewed : sanitize lenient no_cause previewed_input ≡ passed previewed_event
unfolding sanitize fact_of same_text classify_runtime_cause sanitize_message_preview allows_preview
    shorten
sanitize-previewed = refl

sanitize-IsClean_example : IsClean lenient no_cause previewed_event
sanitize-IsClean_example =
    sanitize-IsClean lenient no_cause previewed_input previewed_event sanitize-previewed
