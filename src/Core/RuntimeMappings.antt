-- ===== src/Core/RuntimeMappings.antt =====
-- src/core/normalize.js: `RUNTIME_MAPPINGS`, the semantics of the kinds of each runtime.
use sidewisp_plugin.Prelude.{String, Option, none, some, List, [], ◌∷◌, if◌then◌else◌, any}
use sidewisp_plugin.Prelude.Codes.{Text, codes, same_text}

-- `runtimeKind`: one that `RUNTIME_MAPPINGS` has, or another.
pub data Runtime : Type 0 where
  openclaw hermes codex claude_code unmapped_runtime : Runtime

abbrev pub runtime_name : Runtime → String
runtime_name openclaw = "openclaw"
runtime_name hermes = "hermes"
runtime_name codex = "codex"
runtime_name claude_code = "claude-code"
runtime_name unmapped_runtime = "other"

pub data Semantic : Type 0 where
  runtime_start runtime_stop runtime_crash gateway_up gateway_down turn_start : Semantic
  turn_end turn_progress tool_start tool_end message_received delivery_end : Semantic
  provider_error config_invalid queue_stuck context_exhausted : Semantic

abbrev pub shared_kinds : List (String × Semantic)
shared_kinds =
    ("runtime_start", runtime_start)
    ∷ ("runtime_stop", runtime_stop)
    ∷ ("turn_start", turn_start)
    ∷ ("turn_end", turn_end)
    ∷ ("tool_start", tool_start)
    ∷ ("tool_end", tool_end)
    ∷ ("provider_error", provider_error)
    ∷ ("context_exhausted", context_exhausted)
    ∷ []

-- `RUNTIME_MAPPINGS`
abbrev pub mappings : Runtime → List (String × Semantic)
mappings openclaw =
    ("runtime_start", runtime_start)
    ∷ ("runtime_crash", runtime_crash)
    ∷ ("gateway_up", gateway_up)
    ∷ ("gateway_down", gateway_down)
    ∷ ("turn_start", turn_start)
    ∷ ("turn_end", turn_end)
    ∷ ("turn_progress", turn_progress)
    ∷ ("tool_start", tool_start)
    ∷ ("tool_end", tool_end)
    ∷ ("message_received", message_received)
    ∷ ("delivery_end", delivery_end)
    ∷ ("provider_error", provider_error)
    ∷ ("config_invalid", config_invalid)
    ∷ ("queue_stuck", queue_stuck)
    ∷ ("context_exhausted", context_exhausted)
    ∷ []
mappings hermes =
    ("session_started", runtime_start)
    ∷ ("session_crashed", runtime_crash)
    ∷ ("gateway_connected", gateway_up)
    ∷ ("gateway_disconnected", gateway_down)
    ∷ ("llm_call_start", turn_start)
    ∷ ("llm_call_end", turn_end)
    ∷ ("tool_call_start", tool_start)
    ∷ ("tool_call_end", tool_end)
    ∷ ("message_received", message_received)
    ∷ ("message_delivery_end", delivery_end)
    ∷ ("llm_provider_error", provider_error)
    ∷ ("configuration_error", config_invalid)
    ∷ ("task_queue_stalled", queue_stuck)
    ∷ ("context_limit_reached", context_exhausted)
    ∷ []
mappings codex = shared_kinds
mappings claude_code = shared_kinds
mappings unmapped_runtime = []

-- The names that every object inherits: as a kind, each stands for something that is no semantic.
abbrev pub inherited_names : List String
inherited_names =
    "constructor" ∷ "__defineGetter__" ∷ "__defineSetter__" ∷ "hasOwnProperty" ∷ "__lookupGetter__"
    ∷ "__lookupSetter__" ∷ "isPrototypeOf" ∷ "propertyIsEnumerable" ∷ "toString" ∷ "valueOf"
    ∷ "__proto__" ∷ "toLocaleString" ∷ []

-- What the mapping has for a kind.
pub data Mapped : Type 0 where
  unknown_kind inherited : Mapped
  meaning : Semantic → Mapped

abbrev pub lookup_kind : Text → List (String × Semantic) → Option Semantic
lookup_kind kind [] = none
lookup_kind kind ((k, s) ∷ rows) =
    if same_text kind (codes k) then some s else lookup_kind kind rows

abbrev pub mapped_in : Runtime → Text → Option Semantic → Mapped
mapped_in unmapped_runtime kind o = unknown_kind
mapped_in runtime kind (some s) = meaning s
mapped_in runtime kind none =
    if any (λ n. same_text kind (codes n)) inherited_names then inherited else unknown_kind

abbrev pub mapped : Runtime → Option Text → Mapped
mapped runtime none = unknown_kind
mapped runtime (some kind) = mapped_in runtime kind (lookup_kind kind (mappings runtime))
