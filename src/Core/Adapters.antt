-- ===== src/Core/Adapters.antt =====
-- src/core/runtime-adapter.js: the contract of a runtime adapter, and the registry of adapters.
pub mod Registry
use sidewisp_plugin.Prelude.{
  ℕ, ◌+◌, String, Bool, true, false, not, ◌&&◌, ◌||◌, ◌==◌, Option, none, some, List, [], ◌∷◌, ◌++◌,
  leb, eqb, if◌then◌else◌, all, length, contains, is_some,
}
use sidewisp_plugin.Prelude.Codes.{Text, codes, is_digit, is_lower, same_text}

abbrev pub adapter_contract : Text
adapter_contract = codes "sidewisp.runtime-adapter.v1"

abbrev pub capabilities : List String
capabilities =
    "lifecycle-hooks" ∷ "turn-hooks" ∷ "tool-hooks" ∷ "message-hooks" ∷ "provider-hooks"
    ∷ "log-recovery" ∷ "state-recovery" ∷ "process-health" ∷ "diagnostics-probe" ∷ []

-- `/^[a-z0-9][a-z0-9._-]{0,63}$/` on a string; anything else is `none`.
unfoldable pub is_safe_id : Option Text → Bool
is_safe_id none = false
is_safe_id (some []) = false
is_safe_id (some (c ∷ s)) =
    (is_lower c || is_digit c)
    && leb (length s) 63
    && all (λ n. is_lower n || is_digit n || eqb n b'.' || eqb n b'_' || eqb n b'-') s

pub data CapabilityStatus : Type 0 where
  supported degraded unsupported : CapabilityStatus

-- A declaration's status is none where it is no known state.
pub record Declaration : Type 0 where
  pub status : Option CapabilityStatus
  pub reason : Option Text

-- An object that is offered as an adapter.
pub record Adapter : Type 0 where
  pub contract : Option Text
  pub id : Option Text
  pub runtime_kind : Option Text
  pub version : Option Text
  pub declared : String → Option Declaration
  pub has_method : String → Bool

-- `declareCapabilities`, one entry of its object.
unfoldable pub declare_capability : List String → (String → Option Text) → String → Declaration
declare_capability supported_names degraded_reasons name = elim (degraded_reasons name) [
  | some reason ↦ record { status = some degraded; reason = some reason }
  | none ↦ record {
    status = some (if contains name supported_names then supported else unsupported);
    reason = none;
  }
]

abbrev pub same_option : Option Text → Text → Bool
same_option none t = false
same_option (some s) t = same_text s t

abbrev pub explicit_status : Option CapabilityStatus → Option Text → Bool
explicit_status none reason = false
explicit_status (some degraded) reason = is_safe_id reason
explicit_status (some supported) reason = true
explicit_status (some unsupported) reason = true

-- A capability is declared with a known state, a degraded one with a stable reason.
abbrev pub is_explicit : Option Declaration → Bool
is_explicit none = false
is_explicit (some d) = explicit_status d.status d.reason

abbrev pub methods : List String
methods = "start" ∷ "stop" ∷ "healthSnapshot" ∷ "recover" ∷ "collectDiagnostics" ∷ []

-- `defineRuntimeAdapter`, as a test: it throws where this is false.
unfoldable pub is_runtime_adapter : Adapter → Bool
unfolding is_safe_id same_text
is_runtime_adapter a =
    same_option a.contract adapter_contract
    && is_safe_id a.id
    && is_safe_id a.runtime_kind
    && is_safe_id a.version
    && all (λ name. is_explicit (a.declared name)) capabilities
    && all a.has_method methods

abbrev pub kind_of : Adapter → Text
kind_of a = elim a.runtime_kind [ none ↦ [] | some kind ↦ kind ]

-- `byRuntime.get(kind)`
unfoldable pub get : Text → List Adapter → Option Adapter
unfolding same_text
get kind [] = none
get kind (a ∷ adapters) = if same_text (kind_of a) kind then some a else get kind adapters

-- The loop of `createAdapterRegistry`: none where it throws. A kind that is new is set at the end of
-- the map.
unfoldable pub register : List Adapter → List Adapter → Option (List Adapter)
unfolding is_runtime_adapter get
register [] registry = some registry
register (a ∷ adapters) registry =
    let rest = register adapters (registry ++ a ∷ []) in
    if not (is_runtime_adapter a)
    then none
    else if is_some (get (kind_of a) registry)
    then none
    else rest

unfoldable pub create_adapter_registry : List Adapter → Option (List Adapter)
unfolding register
create_adapter_registry adapters = register adapters []

abbrev pub is_empty : Text → Bool
is_empty [] = true
is_empty (c ∷ s) = false

-- `select` on a text; none where it throws.
unfoldable pub select : Text → List Adapter → Option Adapter
unfolding get
select kind registry = if is_empty kind then none else get kind registry
